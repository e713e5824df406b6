-- ===== src/Verify/Report.antt =====
-- The receipt of scripts/verify_submission.py, and the computations that write to it as they go.
use leansphincs.Base.{String, Bool, false, List, [], Option, none, Exception, Result, ok, err}
use leansphincs.Base.Int.{ℤ}
use leansphincs.Base.Value.{Value, Fields}
use leansphincs.Bundle.{Manifest}
use leansphincs.Contract.Metrics.{Metrics}
use leansphincs.Eligibility.{Gates}
use leansphincs.Scoring.{Score}

-- The values of `stage`.
pub data Stage : Type 0 where
  capturing source_policy setup sandbox_preflight trusted_build compilation artifact_capture
        comparison integrity :
      Stage

-- The values of `report["status"]`.
pub data Status : Type 0 where
  infrastructure_error verification_failed accepted source_rejected interrupted : Status

-- A dict from names to digests or revisions.
abbrev pub Table : Type 0
Table = List (String × String)

-- The receipt. Left out are the schema, `ranked`, the three gates that stay false, the claim, the
-- meter, the name of the profile, the times and the logs. `stage` is the local variable that ends
-- in the receipt, and a field that is not set yet is none.
pub record Report : Type 0 where
  pub stage : Stage
  pub status : Status
  pub mathematical_verification : Bool
  pub submission : Option Manifest
  pub metrics : Option Metrics
  pub harness : Option Manifest
  pub resource_profile : Option Fields
  pub deployment_gates : Option Gates
  pub scoring_profile : Option Fields
  pub dependencies : Option Table
  pub tools : Option Table
  pub sandbox : Option Value
  pub compilation_exit : Option ℤ
  pub artifact_modules : List String
  pub artifacts : Option Manifest
  pub comparator_exit : Option ℤ
  pub score : Option Score
  pub error : Option String

abbrev pub new_report : Report
new_report = record {
  stage = capturing;
  status = infrastructure_error;
  mathematical_verification = false;
  submission = none;
  metrics = none;
  harness = none;
  resource_profile = none;
  deployment_gates = none;
  scoring_profile = none;
  dependencies = none;
  tools = none;
  sandbox = none;
  compilation_exit = none;
  artifact_modules = [];
  artifacts = none;
  comparator_exit = none;
  score = none;
  error = none;
}

-- A block of statements leaves the report behind whether it returns or raises.
pub data Outcome (A : Type 0) : Type 0 where
  returned : A → Report → Outcome A
  raised : Exception → Report → Outcome A

abbrev pub Run : Type 0 → Type 0
Run A = Report → Outcome A

abbrev pub continue : {A B : Type 0} → Outcome A → (A → Run B) → Outcome B
continue (returned a r) rest = rest a r
continue (raised e r) rest = raised e r

infixl 5 ◌>>=◌ ◌>>◌
abbrev pub ◌>>=◌ : {A B : Type 0} → Run A → (A → Run B) → Run B
(m >>= rest) r = continue (m r) rest

abbrev pub ◌>>◌ : {B : Type 0} → Run (Unit {0}) → Run B → Run B
(m >> rest) r = continue (m r) (λ _. rest)

abbrev pub give : {A : Type 0} → A → Run A
give a r = returned a r

-- A call: what it raises leaves the report as it is.
abbrev pub call : {A : Type 0} → Result A → Run A
call (ok a) r = returned a r
call (err e) r = raised e r

-- An assignment to a field of the report.
abbrev pub modify : (Report → Report) → Run (Unit {0})
modify f r = returned tt (f r)

-- `stage = …`
abbrev pub enter : Stage → Run (Unit {0})
enter s r = returned tt (record r { stage = s })

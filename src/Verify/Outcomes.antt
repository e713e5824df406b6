-- ===== src/Verify/Outcomes.antt =====
-- `_verify_admitted` of scripts/verify_submission.py: its `try`, its handlers and its receipt.
use leansphincs.Base.{
  zero, String, Bool, true, false, none, some, if◌then◌else◌, Result, ok, err, value_error,
  runtime_error, os_error, subprocess_error, worker_busy, keyboard_interrupt, recursion_error,
  type_error, index_error, key_error, attribute_error,
}
use leansphincs.Base.Int.{ℤ, pos}
use leansphincs.Base.Value.{Fields}
use leansphincs.Bundle.{Bundle}
use leansphincs.Contract.Metrics.{Metrics}
use leansphincs.Eligibility.{deployment_gates}
use leansphincs.Scoring.{score_entry}
use leansphincs.Verify.Report.{
  Stage, capturing, source_policy, integrity, infrastructure_error, verification_failed, accepted,
  source_rejected, interrupted, Report, new_report, Outcome, returned, raised, Run, ◌>>=◌, ◌>>◌,
  give, call, modify, enter,
}
use leansphincs.Verify.World.{World}
use leansphincs.Verify.Stages.{
  no_evidence, receipt_of, admit_source, set_up, preflight, build_template, compile_and_compare,
}
use leansphincs.Verify.Checks.{check_integrity}

module _ (w : World) where
  -- From the setup to the check of the integrity.
  unfoldable pub behind_source : Bool → Bundle × Metrics → Run (Metrics × Fields × ℤ)
  behind_source insecure source = do
    scoring ← set_up w insecure
    preflight w insecure
    build_template w source
    code ← compile_and_compare w source
    enter integrity
    check_integrity w insecure
    give (source.1, scoring, code)

  unfoldable pub examine : Bool → Run (Metrics × Fields × ℤ)
  examine insecure = admit_source w >>= behind_source insecure

  -- The verdict on the exit code of the comparator.
  unfoldable pub conclude : Metrics × Fields × ℤ → Run (Unit {0})
  conclude (declared, scoring, pos zero) = do
    modify (λ (r : Report). record r { status = accepted })
    modify (λ (r : Report). record r { mathematical_verification = true })
    call w.at_score
    score ← call (score_entry scoring declared.0 declared.1)
    modify (λ (r : Report). record r { score = some score })
  conclude (declared, scoring, code) =
      modify (λ (r : Report). record r { status = verification_failed })

  -- The body of the `try`.
  unfoldable pub attempt : Bool → Run (Unit {0})
  attempt insecure = examine insecure >>= conclude

-- The two `except` clauses. An exception of another class escapes.
abbrev pub is_source_stage : Stage → Bool
is_source_stage capturing = true
is_source_stage source_policy = true
is_source_stage _ = false

abbrev pub failed : Report → String → Report
failed r text = record r {
  score = none;
  status = if is_source_stage r.stage then source_rejected else infrastructure_error;
  error = some text;
}

abbrev pub stopped : Report → Report
stopped r = record r {
  score = none;
  status = interrupted;
  error = some "verification interrupted; worker stop requested";
}

unfoldable pub handle : Outcome (Unit {0}) → Result Report
handle (returned _ r) = ok r
handle (raised (keyboard_interrupt m) r) = ok (stopped r)
handle (raised (type_error m) r) = err (type_error m)
handle (raised (key_error m) r) = err (key_error m)
handle (raised (index_error m) r) = err (index_error m)
handle (raised (attribute_error m) r) = err (attribute_error m)
handle (raised (value_error m) r) = ok (failed r m)
handle (raised (runtime_error m) r) = ok (failed r m)
handle (raised (os_error m) r) = ok (failed r m)
handle (raised (subprocess_error m) r) = ok (failed r m)
handle (raised (worker_busy m) r) = ok (failed r m)
handle (raised (recursion_error m) r) = ok (failed r m)

-- `if "resource_profile" in report: …`
unfoldable pub final_gates : (Fields → String) → Report → Report
final_gates profile_digest r = elim r.resource_profile [
  | none ↦ r
  | some p ↦ record r {
    deployment_gates = some (deployment_gates profile_digest p (receipt_of r) no_evidence);
  }
]

-- `write_receipt`, at the end of the run.
abbrev pub publish : Result (Unit {0}) → Report → Result Report
publish (ok _) r = ok r
publish (err e) r = err e

abbrev pub finish : World → Result Report → Result Report
finish w (ok r) = publish w.write_receipt (final_gates w.profile_digest r)
finish w (err e) = err e

unfoldable pub verify_admitted : World → Bool → Result Report
verify_admitted w insecure = finish w (handle (attempt w insecure new_report))

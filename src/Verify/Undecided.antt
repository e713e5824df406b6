-- ===== src/Verify/Undecided.antt =====
-- No stage before the verdict issues a score or calls a submission verified.
use leansphincs.Base.{◌≡◌, ◌≢◌, Bool, false, not, Option, none, raise_if}
use leansphincs.Bundle.{capture, materialize}
use leansphincs.Contract.Metrics.{metrics}
use leansphincs.Scoring.{Score}
use leansphincs.Verify.Report.{Stage, source_policy, Status, accepted, Report}
use leansphincs.Verify.World.{World}
use leansphincs.Verify.Stages.{is_zero, read_copy, admit_source}
use leansphincs.Verify.Outcomes.{examine}
use leansphincs.Verify.Runs.{Keeps, Keeps-bind}
use leansphincs.Verify.Keeping.{OnVerdict, called, done, behind_source-Keeps}

-- Not verified, not accepted, and without a score.
abbrev pub Undecided : Stage → Status → Bool → Option Score → Type 0
Undecided s t b x = (b ≡ false) × (t ≢ accepted) × (x ≡ none)

abbrev pub IsUndecided : Report → Type 0
IsUndecided = OnVerdict Undecided

module _ (w : World) where
  -- The stages `capture` and `source_policy` keep what the second of them keeps.
  pub admit_source-Keeps :
      (Q : Stage → Status → Bool → Option Score → Type 0)
      → ((s : Stage) (t : Status) (b : Bool) (x : Option Score) → Q s t b x → Q source_policy t b x)
      → Keeps (OnVerdict Q) (admit_source w)
  unfolding admit_source
  admit_source-Keeps Q enters r p =
      called Q (capture w.submission) _
        (λ bundle r p.
          done Q w.write_source _
            (called Q (materialize false bundle) _ (λ files.
              called Q (metrics w.loads (read_copy files)) _ (λ declared.
                called Q (w.check_imports files) _
                  (λ check. done Q (raise_if (not (is_zero check.0)) _) _ (λ r p. p)))))
            _ (enters _ _ _ _ p))
        r p

  pub examine-Keeps : (insecure : Bool) → Keeps IsUndecided (examine w insecure)
  unfolding examine
  examine-Keeps insecure =
      Keeps-bind IsUndecided (admit_source w) _ (admit_source-Keeps Undecided (λ s t b x p. p)) (
        behind_source-Keeps Undecided (λ s s' t b x e p. p) (λ s t b x (v, _, n). (v, (λ e. cc), n))
          w insecure)

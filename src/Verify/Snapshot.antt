-- ===== src/Verify/Snapshot.antt =====
-- What an accepted receipt was given for: the snapshot against the submission.
use leansphincs.Base.{◌≡◌, subst, ◌⊎◌, inl, inr, Bool, ok}
use leansphincs.Bundle.{Bundle, capture}
use leansphincs.Bundle.Binding.{Collision, manifest-binds}
use leansphincs.Verify.Report.{accepted, Report}
use leansphincs.Verify.World.{World}
use leansphincs.Verify.Outcomes.{verify_admitted}
use leansphincs.Verify.Verdict.{verify_admitted-IsSettled}

-- The snapshot still holds the bundle, or it holds in one file another content of the same length
-- and digest.
abbrev pub IsKept : World → Bundle → Type 0
IsKept w bundle =
    (capture w.snapshot ≡ ok bundle)
    ⊎ ((later : Bundle) × (capture w.snapshot ≡ ok later) × Collision w.sha256 later bundle)

-- An accepted receipt is given for one bundle, the one that the submission directory held at the
-- start, and that the private snapshot still holds after the comparison, byte for byte. The only
-- other way is that a file of the snapshot and the file of this name in the submission have two
-- different contents of one length and one digest.
pub verify_admitted-same_bundle :
    (w : World) (insecure : Bool) (r : Report)
    → verify_admitted w insecure ≡ ok r
    → r.status ≡ accepted
    → (bundle : Bundle) × (capture w.submission ≡ ok bundle) × IsKept w bundle
verify_admitted-same_bundle w insecure r h a =
    let (evidence, verified, _) = verify_admitted-IsSettled w insecure r h in
    let (bundle, declared, v) = evidence (verified a) in
    let (captured, _) = v.admitted in
    let (later, again, same) = v.snapshot in
    (
      bundle,
      captured,
      decide bundle later again (
          manifest-binds w.sha256 w.encode w.snapshot w.submission later bundle again captured
            same),
    )
  where
    decide :
        (bundle later : Bundle)
        → capture w.snapshot ≡ ok later
        → (later ≡ bundle) ⊎ Collision w.sha256 later bundle
        → IsKept w bundle
    decide bundle later again (inl e) = inl (subst (λ b. capture w.snapshot ≡ ok b) e again)
    decide bundle later again (inr c) = inr (later, again, c)

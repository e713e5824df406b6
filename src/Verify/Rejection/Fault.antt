-- ===== src/Verify/Rejection/Fault.antt =====
-- What can be raised up to the end of the source policy, call by call.
use leansphincs.Base.{
  ◌≡◌, ◌⊎◌, inl, inr, refl, String, Bool, true, false, not, Exception, Result, ok, err, value_error,
  raise_if,
}
use leansphincs.Base.Int.{ℤ}
use leansphincs.Bundle.{Bundle, capture, materialize}
use leansphincs.Contract.Metrics.{Metrics, metrics}
use leansphincs.Verify.Report.{Report, returned, raised, Run, continue, call}
use leansphincs.Verify.World.{World}
use leansphincs.Verify.Stages.{is_zero, read_copy, admit_source}

-- The calls behind the capture of `bundle`.
pub data IsPolicyFault (w : World) (bundle : Bundle) (e : Exception) : Type 0 where
  unwritten : w.write_source ≡ err e → IsPolicyFault w bundle e
  uncopied : w.write_source ≡ ok tt → materialize false bundle ≡ err e → IsPolicyFault w bundle e
  unmeasured :
      (files : Bundle)
      → w.write_source ≡ ok tt
      → materialize false bundle ≡ ok files
      → metrics w.loads (read_copy files) ≡ err e
      → IsPolicyFault w bundle e
  unchecked :
      (files : Bundle) (declared : Metrics)
      → w.write_source ≡ ok tt
      → materialize false bundle ≡ ok files
      → metrics w.loads (read_copy files) ≡ ok declared
      → w.check_imports files ≡ err e
      → IsPolicyFault w bundle e
  refused :
      (files : Bundle) (declared : Metrics) (code : ℤ) (message : String)
      → w.write_source ≡ ok tt
      → materialize false bundle ≡ ok files
      → metrics w.loads (read_copy files) ≡ ok declared
      → w.check_imports files ≡ ok (code, message)
      → is_zero code ≡ false
      → e ≡ value_error message
      → IsPolicyFault w bundle e

pub data IsSourceFault (w : World) (e : Exception) : Type 0 where
  uncaptured : capture w.submission ≡ err e → IsSourceFault w e
  behind_capture :
      (bundle : Bundle)
      → capture w.submission ≡ ok bundle
      → IsPolicyFault w bundle e
      → IsSourceFault w e

call_raised :
    {A B : Type 0} {r s : Report} {e : Exception} (x : Result A) (k : A → Run B)
    → continue (call x r) k ≡ raised e s
    → (x ≡ err e) ⊎ ((a : A) × (x ≡ ok a) × (k a r ≡ raised e s))
call_raised (ok a) k h = inr (a, refl, h)
call_raised (err e') k h = inl (cc)

module _ (w : World) where
  refused_raised :
      (r : Report) {s : Report} {e : Exception} (code : ℤ) (message : String) (x : Bundle × Metrics)
      (f : Report → Report)
      → continue
          (call (raise_if (not (is_zero code)) (value_error message)) r)
          (λ _ q. returned x (f q))
        ≡ raised e s
      → (is_zero code ≡ false) × (e ≡ value_error message)
  refused_raised r {s} {e} code message x f h = by_test (is_zero code) h
    where
      by_test :
          (b : Bool)
          → continue (call (raise_if (not b) (value_error message)) r) (λ _ q. returned x (f q))
            ≡ raised e s
          → (b ≡ false) × (e ≡ value_error message)
      by_test true h = absurd (cc)
      by_test false h = (refl, cc)

  pub fault_of :
      (r : Report) {e : Exception} {s : Report} → admit_source w r ≡ raised e s → IsSourceFault w e
  unfolding admit_source
  fault_of r h = elim (call_raised (capture w.submission) _ h) [
    | inl e₁ ↦ uncaptured e₁
    | inr (bundle, captured, h₁) ↦
        behind_capture bundle captured (elim (call_raised w.write_source _ h₁) [
          | inl e₂ ↦ unwritten e₂
          | inr (_, written, h₂) ↦ elim (call_raised (materialize false bundle) _ h₂) [
            | inl e₃ ↦ uncopied written e₃
            | inr (files, copied, h₃) ↦
                elim (call_raised (metrics w.loads (read_copy files)) _ h₃) [
                  | inl e₄ ↦ unmeasured files written copied e₄
                  | inr (declared, measured, h₄) ↦ elim (call_raised (w.check_imports files) _ h₄) [
                    | inl e₅ ↦ unchecked files declared written copied measured e₅
                    | inr (check, checked, h₅) ↦
                        let (code, same) = refused_raised _ check.0 check.1 _ _ h₅ in
                        refused files declared check.0 check.1 written copied measured checked code
                          same
                  ]
                ]
          ]
        ])
  ]

  pub raised_of :
      (r : Report) {e : Exception}
      → IsSourceFault w e
      → (s : Report) × (admit_source w r ≡ raised e s)
  unfolding admit_source
  raised_of r (uncaptured h) = rw h (_, refl)
  raised_of r (behind_capture bundle h (unwritten h₁)) = rw (h, h₁) (_, refl)
  raised_of r (behind_capture bundle h (uncopied h₁ h₂)) = rw (h, h₁, h₂) (_, refl)
  raised_of r (behind_capture bundle h (unmeasured files h₁ h₂ h₃)) = rw (h, h₁, h₂, h₃) (_, refl)
  raised_of r (behind_capture bundle h (unchecked files declared h₁ h₂ h₃ h₄)) =
      rw (h, h₁, h₂, h₃, h₄) (_, refl)
  raised_of r (behind_capture bundle h (refused files declared code message h₁ h₂ h₃ h₄ h₅ same)) =
      rw (h, h₁, h₂, h₃, h₄, h₅, same) (_, refl)

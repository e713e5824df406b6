-- ===== src/Verify/Admission/Lock.antt =====
-- `verify` and the lock of the checkout: what it leaves, and the processes it stands for.
use leansphincs.Base.{
  ℕ, ◌≡◌, ◌≢◌, refl, sym, ap, ◌∙◌, inl, inr, Bool, Option, none, some, arith, Bool-cases, ◌==◌,
  Result, ok, err,
}
use leansphincs.Worker.{worker_slot, close}
use leansphincs.Verify.World.{World}
use leansphincs.Verify.Admission.{Desk, in_slot, behind_mkdir, verify}
use leansphincs.Verify.Admission.Slot.{slot_iff}

close_free : (p : ℕ) → close (some p) p ≡ none
unfolding close
close_free p = ground arith

close_other : (holder : Option ℕ) (p : ℕ) → holder ≢ some p → close holder p ≡ holder
unfolding close
close_other none p n = refl
close_other (some q) p n = elim (Bool-cases (q == p)) [
  | inl e ↦ absurd (n (ap some (ground arith)))
  | inr e ↦ rw e refl
]

module _ (d : Desk) (w : World) (insecure : Bool) where
  -- Whatever is raised on the way, a verification leaves the lock as it found it: a lock that was free
  -- is free again, and a lock of another process is still held by it.
  pub verify-lock :
      (p : ℕ) (holder : Option ℕ) → holder ≢ some p → (verify d insecure w p holder).1 ≡ holder
  unfolding verify
  verify-lock p holder n = by_mkdir d.mkdir
    where
      by_slot :
          (slot : Result (Option ℕ))
          → (slot ≡ worker_slot d.opened holder p)
          → (in_slot d insecure w p holder slot).1 ≡ holder
      by_slot (err e) h = close_other holder p n
      by_slot (ok taken) h =
          let (_, free, mine) = (slot_iff d.opened holder p taken).0 (sym h) in
          ap (λ l. close l p) mine ∙ (close_free p ∙ sym free)

      by_mkdir : (m : Result (Unit {0})) → (behind_mkdir d insecure w p holder m).1 ≡ holder
      by_mkdir (err e) = refl
      by_mkdir (ok u) = by_slot (worker_slot d.opened holder p) refl

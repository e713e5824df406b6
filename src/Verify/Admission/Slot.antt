-- ===== src/Verify/Admission/Slot.antt =====
-- What `verify` does with the lock, and when it runs.
use leansphincs.Base.{
  ℕ, ◌≡◌, ◌↔◌, refl, sym, ap, Bool, true, false, Option, none, some, Result, ok, err, worker_busy,
  value_error, runtime_error, os_error, subprocess_error, keyboard_interrupt, recursion_error,
  type_error, index_error, key_error, attribute_error, then-eq-ok, ok-injective,
}
use leansphincs.Worker.{worker_slot}
use leansphincs.Verify.Report.{Report}
use leansphincs.Verify.World.{World}
use leansphincs.Verify.Outcomes.{verify_admitted}
use leansphincs.Verify.Admission.{
  Answer, ran, Desk, except_busy, ran_of, in_slot, behind_mkdir, verify,
}

pub slot_iff :
    (opened : Result Bool) (holder : Option ℕ) (p : ℕ) (taken : Option ℕ)
    → (worker_slot opened holder p ≡ ok taken)
      ↔ ((opened ≡ ok true) × (holder ≡ none) × (taken ≡ some p))
unfolding worker_slot
slot_iff (ok true) none p taken =
    (λ h. (refl, refl, sym (ok-injective _ _ h)), λ (_, _, e). ap ok (sym e))
slot_iff (ok true) (some q) p taken = (λ h. cc, λ h. cc)
slot_iff (ok false) holder p taken = (λ h. cc, λ h. cc)
slot_iff (err e) holder p taken = (λ h. cc, λ h. cc)

module _ (d : Desk) (w : World) (insecure : Bool) where
  except_busy-ran :
      (x : Result Answer) (r : Report) → (except_busy d insecure x ≡ ok (ran r)) ↔ (x ≡ ok (ran r))
  unfolding except_busy
  except_busy-ran (err (worker_busy m)) r = (
    λ h.
        let (_, h₁) = then-eq-ok d.busy_directory _ h in
        let (_, h₂) = then-eq-ok d.busy_receipt _ h₁ in cc,
    λ h. cc,
  )
  except_busy-ran (ok answer) r = (λ h. h, λ h. h)
  except_busy-ran (err (value_error m)) r = (λ h. cc, λ h. cc)
  except_busy-ran (err (runtime_error m)) r = (λ h. cc, λ h. cc)
  except_busy-ran (err (os_error m)) r = (λ h. cc, λ h. cc)
  except_busy-ran (err (subprocess_error m)) r = (λ h. cc, λ h. cc)
  except_busy-ran (err (keyboard_interrupt m)) r = (λ h. cc, λ h. cc)
  except_busy-ran (err (recursion_error m)) r = (λ h. cc, λ h. cc)
  except_busy-ran (err (type_error m)) r = (λ h. cc, λ h. cc)
  except_busy-ran (err (key_error m)) r = (λ h. cc, λ h. cc)
  except_busy-ran (err (index_error m)) r = (λ h. cc, λ h. cc)
  except_busy-ran (err (attribute_error m)) r = (λ h. cc, λ h. cc)

  ran_of-injective :
      (x : Result Report) (r : Report) → (ran_of d insecure x ≡ ok (ran r)) ↔ (x ≡ ok r)
  ran_of-injective (ok q) r = (λ h. ap ok (inner h), λ h. ap (ran_of d insecure) h)
    where
      inner : {p q : Report} → ok (ran p) ≡ ok (ran q) → p ≡ q
      inner h = cc
  ran_of-injective (err e) r = (λ h. cc, λ h. cc)

  in_slot-ran :
      (p : ℕ) (holder : Option ℕ) (slot : Result (Option ℕ)) (r : Report)
      → ((in_slot d insecure w p holder slot).0 ≡ ok (ran r))
        ↔ (((taken : Option ℕ) × (slot ≡ ok taken)) × (verify_admitted w insecure ≡ ok r))
  in_slot-ran p holder (err e) r = (λ h. cc, λ ((_, e), _). cc)
  in_slot-ran p holder (ok taken) r =
      let (f, g) = ran_of-injective (verify_admitted w insecure) r in
      (λ h. ((taken, refl), f h), λ (_, h). g h)

  -- `verify` hands out the report of a run exactly when the directory of results was made, the lock
  -- file is regular, nobody held the lock, and the run wrote this report as its receipt.
  pub verify-ran :
      (p : ℕ) (holder : Option ℕ) (r : Report)
      → ((verify d insecure w p holder).0 ≡ ok (ran r)) ↔ (
          (d.mkdir ≡ ok tt)
          × (d.opened ≡ ok true)
          × (holder ≡ none)
          × (verify_admitted w insecure ≡ ok r))
  unfolding verify
  verify-ran p holder r = by_mkdir d.mkdir
    where
      by_mkdir :
          (m : Result (Unit {0}))
          → ((behind_mkdir d insecure w p holder m).0 ≡ ok (ran r)) ↔ (
              (m ≡ ok tt)
              × (d.opened ≡ ok true)
              × (holder ≡ none)
              × (verify_admitted w insecure ≡ ok r))
      by_mkdir (err e) = (λ h. cc, λ h. cc)
      by_mkdir (ok u) =
          let slot = worker_slot d.opened holder p in
          let (f, g) = except_busy-ran (in_slot d insecure w p holder slot).0 r in
          let (f', g') = in_slot-ran p holder slot r in
          (
            λ h.
                let ((taken, e), run) = f' (f h) in
                let (regular, free, _) = (slot_iff d.opened holder p taken).0 e in
                (refl, regular, free, run),
            λ (_, regular, free, run).
                g (
                  g'
                    ((some p, (slot_iff d.opened holder p (some p)).1 (regular, free, refl)), run)),
          )

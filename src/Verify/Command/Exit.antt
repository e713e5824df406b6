-- ===== src/Verify/Command/Exit.antt =====
-- When the command line exits with zero.
use text.Mathlib.Text.{◌==◌ as str_eq}
use leansphincs.Base.{
  ℕ, ◌≡◌, ◌↔◌, refl, sym, subst, ap, ◌∙◌, Bool, true, false, Option, none, if◌then◌else◌, Result,
  ok, err, worker_busy, value_error, runtime_error, os_error, subprocess_error, keyboard_interrupt,
  recursion_error, type_error, index_error, key_error, attribute_error, then-eq-ok, bind-eq-ok,
  ok-injective, ◌>>=◌, ◌≢◌,
}
use leansphincs.Base.Int.{ℤ, pos}
use leansphincs.Verify.Report.{
  Status, infrastructure_error, verification_failed, accepted, source_rejected, interrupted, Report,
}
use leansphincs.Verify.World.{World}
use leansphincs.Verify.Outcomes.{verify_admitted}
use leansphincs.Verify.Verdict.{Evidence, verify_admitted-IsSettled}
use leansphincs.Verify.Admission.{
  Answer, ran, busy, busy_report, Desk, except_busy, ran_of, in_slot, behind_mkdir, verify,
}
use leansphincs.Verify.Admission.Slot.{verify-ran}
use leansphincs.Worker.{worker_slot}
use leansphincs.Verify.Command.{status_name, Line, line_of, exit_status, main}

status_name-accepted : (s : Status) → str_eq (status_name s) "accepted" ≡ true → s ≡ accepted
status_name-accepted accepted h = refl
status_name-accepted infrastructure_error h = cc
status_name-accepted verification_failed h = cc
status_name-accepted source_rejected h = cc
status_name-accepted interrupted h = cc

exit_status-zero : (line : Line) → exit_status line ≡ pos 0 → str_eq line.status "accepted" ≡ true
unfolding exit_status
exit_status-zero line h = by_test (str_eq line.status "accepted") h
  where
    by_test : (b : Bool) → (if b then pos 0 else pos 1) ≡ pos 0 → b ≡ true
    by_test true h = refl
    by_test false h = cc

module _ (d : Desk) (w : World) (insecure : Bool) where
  -- A refusal calls itself one.
  abbrev IsRefusal : Answer → Type 0
  IsRefusal (ran r) = Unit
  IsRefusal (busy b) = b.status ≡ "worker_busy"

  except_busy-IsRefusal :
      (x : Result Answer) (a : Answer)
      → ((q : Answer) → x ≡ ok q → IsRefusal q)
      → except_busy d insecure x ≡ ok a
      → IsRefusal a
  unfolding except_busy
  except_busy-IsRefusal (err (worker_busy m)) a f h =
      let (_, h₁) = then-eq-ok d.busy_directory _ h in
      let (_, h₂) = then-eq-ok d.busy_receipt _ h₁ in
      subst IsRefusal (ok-injective (busy (busy_report insecure m)) a h₂) refl
  except_busy-IsRefusal (ok answer) a f h = f a h
  except_busy-IsRefusal (err (value_error m)) a f h = cc
  except_busy-IsRefusal (err (runtime_error m)) a f h = cc
  except_busy-IsRefusal (err (os_error m)) a f h = cc
  except_busy-IsRefusal (err (subprocess_error m)) a f h = cc
  except_busy-IsRefusal (err (keyboard_interrupt m)) a f h = cc
  except_busy-IsRefusal (err (recursion_error m)) a f h = cc
  except_busy-IsRefusal (err (type_error m)) a f h = cc
  except_busy-IsRefusal (err (key_error m)) a f h = cc
  except_busy-IsRefusal (err (index_error m)) a f h = cc
  except_busy-IsRefusal (err (attribute_error m)) a f h = cc

  verify-IsRefusal :
      (p : ℕ) (holder : Option ℕ) (a : Answer)
      → (verify d insecure w p holder).0 ≡ ok a
      → IsRefusal a
  unfolding verify
  verify-IsRefusal p holder a = by_mkdir d.mkdir
    where
      ran-IsRefusal : (x : Result Report) (q : Answer) → ran_of d insecure x ≡ ok q → IsRefusal q
      ran-IsRefusal (ok r) q h = subst IsRefusal (ok-injective (ran r) q h) tt
      ran-IsRefusal (err e) q h = cc

      slot-IsRefusal :
          (slot : Result (Option ℕ)) (q : Answer)
          → (in_slot d insecure w p holder slot).0 ≡ ok q
          → IsRefusal q
      slot-IsRefusal (err e) q h = cc
      slot-IsRefusal (ok taken) q h = ran-IsRefusal (verify_admitted w insecure) q h

      by_mkdir :
          (m : Result (Unit {0})) → (behind_mkdir d insecure w p holder m).0 ≡ ok a → IsRefusal a
      by_mkdir (err e) h = cc
      by_mkdir (ok u) h =
          let slot = worker_slot d.opened holder p in
          except_busy-IsRefusal (in_slot d insecure w p holder slot).0 a (slot-IsRefusal slot) h

  -- An answer whose line says accepted is an accepted report.
  accepted_inv :
      (a : Answer)
      → IsRefusal a
      → exit_status (line_of a) ≡ pos 0
      → (r : Report) × (a ≡ ran r) × (r.status ≡ accepted)
  unfolding line_of
  accepted_inv (ran r) i h =
      (r, refl, status_name-accepted r.status (exit_status-zero (line_of (ran r)) h))
  accepted_inv (busy b) i h =
      let said = exit_status-zero (line_of (busy b)) h in
      absurd (differ (sym (ap (λ s. str_eq s "accepted") i) ∙ said))
    where
      differ : str_eq "worker_busy" "accepted" ≢ true
      differ e = cc

  exit_status-accepted : (r : Report) → r.status ≡ accepted → exit_status (line_of (ran r)) ≡ pos 0
  unfolding line_of exit_status
  exit_status-accepted r e = ap (λ s. if str_eq (status_name s) "accepted" then pos 0 else pos 1) e

-- The command line exits with zero exactly when the directory of results was made, the lock file is
-- regular, nobody held the lock, and the run wrote an accepted report as its receipt; and then there
-- is the evidence of a verified submission. A refusal for a busy worker never exits with zero.
pub main_iff :
    (d : Desk) (w : World) (insecure : Bool) (p : ℕ) (holder : Option ℕ)
    → ((line : Line) × (main d insecure w p holder ≡ ok (line, pos 0))) ↔ (
        (d.mkdir ≡ ok tt)
        × (d.opened ≡ ok true)
        × (holder ≡ none)
        × ((r : Report) × (verify_admitted w insecure ≡ ok r)
            × (r.status ≡ accepted)
            × Evidence w insecure))
unfolding main
main_iff d w insecure p holder = (
  λ (line, h).
      let (a, answered, h₁) = bind-eq-ok (verify d insecure w p holder).0 _ h in
      let zero_exit = ap (λ (x : Line × ℤ). x.1) (ok-injective _ _ h₁) in
      let (r, same, good) =
        accepted_inv d w insecure a (verify-IsRefusal d w insecure p holder a answered) zero_exit in
      let (made, regular, free, run) =
        (verify-ran d w insecure p holder r).0 (answered ∙ ap ok same) in
      let (evidence, verified, _) = verify_admitted-IsSettled w insecure r run in
      (made, regular, free, (r, run, good, evidence (verified good))),
  λ (made, regular, free, (r, run, good, _)).
      let answered = (verify-ran d w insecure p holder r).1 (made, regular, free, run) in
      (
        line_of (ran r),
        ap (λ (x : Result Answer). x >>= (λ a. ok (line_of a, exit_status (line_of a)))) answered
            ∙ ap (λ z. ok (line_of (ran r), z)) (exit_status-accepted d w insecure r good),
      ),
)

-- ===== src/Verify/Verdict.antt =====
-- When a receipt calls a submission verified, accepted, or scored.
use leansphincs.Base.{
  zero, suc, ◌≡◌, ◌≢◌, String, refl, subst, ap, ◌⊎◌, inl, inr, ok-injective, Option-cases, Bool,
  true, false, none, some, Exception, Result, ok, err, value_error, runtime_error, os_error,
  subprocess_error, worker_busy, keyboard_interrupt, recursion_error, type_error, index_error,
  key_error, attribute_error, if◌then◌else◌,
}
use leansphincs.Base.Int.{ℤ, pos, negsuc}
use leansphincs.Base.Value.{Fields}
use leansphincs.Bundle.{Bundle}
use leansphincs.Contract.Metrics.{Metrics}
use leansphincs.Scoring.{Score, score_entry}
use leansphincs.Verify.Report.{
  Stage, accepted, source_rejected, infrastructure_error, verification_failed, Report, new_report,
  Outcome, returned, raised, continue, ◌>>=◌, call, modify,
}
use leansphincs.Verify.World.{World}
use leansphincs.Verify.Outcomes.{
  is_source_stage, failed, stopped, examine, conclude, attempt, handle, final_gates, publish,
  finish, verify_admitted,
}
use leansphincs.Verify.Runs.{report_of}
use leansphincs.Verify.Verified.{IsVerified, examine_inv}
use leansphincs.Verify.Undecided.{IsUndecided, examine-Keeps}

-- A report says verified only with the evidence `E`, accepted only if verified, and has a score
-- exactly when it says accepted.
abbrev pub IsSettled : Type 0 → Report → Type 0
IsSettled E r =
    (r.mathematical_verification ≡ true → E)
    × (r.status ≡ accepted → r.mathematical_verification ≡ true)
    × (((r.status ≡ accepted) × ((x : Score) × (r.score ≡ some x)))
        ⊎ ((r.status ≢ accepted) × (r.score ≡ none)))

module _ (E : Type 0) where
  not_accepted :
      (r : Report)
      → (r.mathematical_verification ≡ true → E)
      → r.status ≢ accepted
      → r.score ≡ none
      → IsSettled E r
  not_accepted r f g h = (f, (λ e. absurd (g e)), inr (g, h))

  failure_status :
      (s : Stage) → (if is_source_stage s then source_rejected else infrastructure_error) ≢ accepted
  failure_status s h = by_test (is_source_stage s) h
    where
      by_test : (b : Bool) → (if b then source_rejected else infrastructure_error) ≢ accepted
      by_test true h = cc
      by_test false h = cc

  caught :
      (q : Report) (m : String) {r : Report}
      → (q.mathematical_verification ≡ true → E)
      → ok (failed q m) ≡ ok r
      → IsSettled E r
  caught q m f h =
      subst (IsSettled E) (ok-injective (failed q m) _ h)
        (not_accepted (failed q m) f (failure_status q.stage) refl)

  handle_raised :
      (e : Exception) (q : Report) {r : Report}
      → (q.mathematical_verification ≡ true → E)
      → handle (raised e q) ≡ ok r
      → IsSettled E r
  unfolding handle
  handle_raised (keyboard_interrupt m) q f h =
      subst (IsSettled E) (ok-injective (stopped q) _ h) (not_accepted (stopped q) f (λ e. cc) refl)
  handle_raised (type_error m) q f h = cc
  handle_raised (key_error m) q f h = cc
  handle_raised (index_error m) q f h = cc
  handle_raised (attribute_error m) q f h = cc
  handle_raised (value_error m) q f h = caught q m f h
  handle_raised (runtime_error m) q f h = caught q m f h
  handle_raised (os_error m) q f h = caught q m f h
  handle_raised (subprocess_error m) q f h = caught q m f h
  handle_raised (worker_busy m) q f h = caught q m f h
  handle_raised (recursion_error m) q f h = caught q m f h

  handle_returned :
      {u : Unit {0}} (q : Report) {r : Report}
      → IsSettled E q
      → handle (returned u q) ≡ ok r
      → IsSettled E r
  unfolding handle
  handle_returned q s h = subst (IsSettled E) (ok-injective q _ h) s

  -- The assignment of the score, behind the signal that may come.
  score-IsSettled :
      (x : Result (Unit {0})) (y : Result Score) (q : Report) {r : Report}
      → E
      → q.status ≡ accepted
      → q.mathematical_verification ≡ true
      → handle (
          continue
            (call x q)
            (λ _. call y >>= (λ score. modify (λ (p : Report). record p { score = some score }))))
        ≡ ok r
      → IsSettled E r
  score-IsSettled (err e) y q ev a v h = handle_raised e q (λ _. ev) h
  score-IsSettled (ok u) (err e) q ev a v h = handle_raised e q (λ _. ev) h
  score-IsSettled (ok u) (ok score) q ev a v h =
      handle_returned (record q { score = some score })
        ((λ _. ev), (λ _. v), inl (a, (score, refl))) h

  conclude-IsSettled :
      (w : World) (x : Metrics × Fields × ℤ) (q : Report) {r : Report}
      → IsUndecided q
      → (x.2 ≡ pos 0 → E)
      → handle (conclude w x q) ≡ ok r
      → IsSettled E r
  unfolding conclude
  conclude-IsSettled w (declared, scoring, pos zero) q (math, _, score) f h =
      score-IsSettled w.at_score (score_entry scoring declared.0 declared.1)
        (record q { status = accepted; mathematical_verification = true }) (f refl) refl refl h
  conclude-IsSettled w (declared, scoring, pos (suc n)) q (math, _, score) f h =
      let p = record q { status = verification_failed } in
      handle_returned p (not_accepted p (λ e. absurd (cc)) (λ e. cc) score) h
  conclude-IsSettled w (declared, scoring, negsuc n) q (math, _, score) f h =
      let p = record q { status = verification_failed } in
      handle_returned p (not_accepted p (λ e. absurd (cc)) (λ e. cc) score) h

  attempt-IsSettled :
      (w : World) (o : Outcome (Metrics × Fields × ℤ)) {r : Report}
      → IsUndecided (report_of o)
      → ((declared : Metrics) (scoring : Fields) (s : Report)
          → o ≡ returned (declared, scoring, pos 0) s
          → E)
      → handle (continue o (conclude w)) ≡ ok r
      → IsSettled E r
  attempt-IsSettled w (returned (declared, scoring, code) q) p f h =
      conclude-IsSettled w (declared, scoring, code) q p
        (λ e. f declared scoring q (ap (λ c. returned (declared, scoring, c) q) e)) h
  attempt-IsSettled w (raised e q) (math, _, score) f h = handle_raised e q (λ t. absurd (cc)) h

  final_gates-IsSettled :
      (d : Fields → String) (r : Report) → IsSettled E r → IsSettled E (final_gates d r)
  unfolding final_gates
  final_gates-IsSettled d r s = elim (Option-cases r.resource_profile) [
    | inl e ↦ rw e s
    | inr (p, e) ↦ rw e s
  ]

pub finish_inv :
    (w : World) (x : Result Report) {r : Report}
    → finish w x ≡ ok r
    → (q : Report) × (x ≡ ok q) × (final_gates w.profile_digest q ≡ r)
finish_inv w (ok q) h = (q, refl, published w.write_receipt h)
  where
    published : (y : Result (Unit {0})) {p r : Report} → publish y p ≡ ok r → p ≡ r
    published (ok u) h = ok-injective _ _ h
    published (err e) h = cc
finish_inv w (err e) h = cc

-- The evidence for a verified receipt.
abbrev pub Evidence : World → Bool → Type 0
Evidence w insecure =
    (bundle : Bundle) × (declared : Metrics) × IsVerified w insecure bundle declared

-- Whatever the surroundings do, a receipt that is written says that a submission is verified only
-- when its source was admitted, all four programs exited with zero, and a second capture of the
-- snapshot, the artifacts, the harness, the dependencies and the tools agreed with the first; it
-- says accepted only then, and has a score exactly when it says accepted.
pub verify_admitted-IsSettled :
    (w : World) (insecure : Bool) (r : Report)
    → verify_admitted w insecure ≡ ok r
    → IsSettled (Evidence w insecure) r
unfolding verify_admitted attempt
verify_admitted-IsSettled w insecure r h =
    let (q, handled, final) = finish_inv w (handle (attempt w insecure new_report)) h in
    let settled =
      attempt-IsSettled (Evidence w insecure) w (examine w insecure new_report)
        (examine-Keeps w insecure new_report (refl, (λ e. cc), refl))
        (λ declared scoring s e.
          let (bundle, v) = examine_inv w insecure e in (bundle, declared, v))
        handled in
    subst (IsSettled (Evidence w insecure)) final
      (final_gates-IsSettled (Evidence w insecure) w.profile_digest q settled)

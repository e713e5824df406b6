-- ===== src/Verify/Rejection.antt =====
-- Which receipts reject a source.
pub mod Fault
use leansphincs.Base.{
  zero, suc, ◌≡◌, ◌≢◌, refl, sym, ap, ◌∙◌, subst, ◌↔◌, ok-injective, String, Bool, true, false,
  Option, some, Option-cases, inl, inr, Exception, Result, ok, err, value_error, runtime_error,
  os_error, subprocess_error, worker_busy, keyboard_interrupt, recursion_error, type_error,
  index_error, key_error, attribute_error, if◌then◌else◌,
}
use leansphincs.Base.Int.{ℤ, pos, negsuc}
use leansphincs.Base.Value.{Fields}
use leansphincs.Bundle.{Bundle}
use leansphincs.Contract.Metrics.{Metrics}
use leansphincs.Scoring.{Score, score_entry}
use leansphincs.Verify.Report.{
  Stage, setup, Status, accepted, source_rejected, infrastructure_error, Report, new_report,
  Outcome, returned, raised, continue, ◌>>=◌, call, modify,
}
use leansphincs.Verify.World.{World}
use leansphincs.Verify.Stages.{admit_source, set_up}
use leansphincs.Verify.Outcomes.{
  is_source_stage, failed, stopped, behind_source, examine, conclude, attempt, handle, final_gates,
  verify_admitted,
}
use leansphincs.Verify.Runs.{report_of}
use leansphincs.Verify.Keeping.{OnVerdict, behind_source-Keeps}
use leansphincs.Verify.Rejection.Fault.{IsSourceFault, fault_of, raised_of}
use leansphincs.Verify.Undecided.{admit_source-Keeps}
use leansphincs.Verify.Verdict.{finish_inv}

-- Behind the source policy no status rejects the source.
abbrev Late : Stage → Status → Bool → Option Score → Type 0
Late s t b x = (is_source_stage s ≡ false) × (t ≢ source_rejected)

abbrev Early : Stage → Status → Bool → Option Score → Type 0
Early s t b x = is_source_stage s ≡ true

abbrev IsLate : Report → Type 0
IsLate = OnVerdict Late

abbrev pub is_interrupt : Exception → Bool
is_interrupt (keyboard_interrupt m) = true
is_interrupt _ = false

caught_late :
    (q : Report) (m : String) {r : Report}
    → IsLate q
    → ok (failed q m) ≡ ok r
    → r.status ≢ source_rejected
caught_late q m (late, _) h e =
    let status = ap (λ (x : Report). x.status) (ok-injective (failed q m) _ h) ∙ e in
    absurd (
      cc (
        subst (λ b. (if b then source_rejected else infrastructure_error) ≡ source_rejected) late
          status))

caught_early :
    (q : Report) (m : String) {r : Report}
    → is_source_stage q.stage ≡ true
    → ok (failed q m) ≡ ok r
    → r.status ≡ source_rejected
caught_early q m early h =
    sym (ap (λ (x : Report). x.status) (ok-injective (failed q m) _ h))
    ∙ ap (λ b. if b then source_rejected else infrastructure_error) early

handle_late :
    (o : Outcome (Unit {0})) {r : Report}
    → IsLate (report_of o)
    → handle o ≡ ok r
    → r.status ≢ source_rejected
unfolding handle
handle_late (returned _ q) (_, fine) h =
    λ e. fine (ap (λ (x : Report). x.status) (ok-injective q _ h) ∙ e)
handle_late (raised (keyboard_interrupt m) q) p h =
    λ e. cc (ap (λ (x : Report). x.status) (ok-injective (stopped q) _ h) ∙ e)
handle_late (raised (type_error m) q) p h = cc
handle_late (raised (key_error m) q) p h = cc
handle_late (raised (index_error m) q) p h = cc
handle_late (raised (attribute_error m) q) p h = cc
handle_late (raised (value_error m) q) p h = caught_late q m p h
handle_late (raised (runtime_error m) q) p h = caught_late q m p h
handle_late (raised (os_error m) q) p h = caught_late q m p h
handle_late (raised (subprocess_error m) q) p h = caught_late q m p h
handle_late (raised (worker_busy m) q) p h = caught_late q m p h
handle_late (raised (recursion_error m) q) p h = caught_late q m p h

handle_early :
    (e : Exception) (q : Report) {r : Report}
    → is_source_stage q.stage ≡ true
    → handle (raised e q) ≡ ok r
    → (r.status ≡ source_rejected) ↔ (is_interrupt e ≡ false)
unfolding handle
handle_early (keyboard_interrupt m) q p h =
    (λ e. absurd (cc (ap (λ (x : Report). x.status) (ok-injective (stopped q) _ h) ∙ e)), λ e. cc)
handle_early (type_error m) q p h = cc
handle_early (key_error m) q p h = cc
handle_early (index_error m) q p h = cc
handle_early (attribute_error m) q p h = cc
handle_early (value_error m) q p h = (λ _. refl, λ _. caught_early q m p h)
handle_early (runtime_error m) q p h = (λ _. refl, λ _. caught_early q m p h)
handle_early (os_error m) q p h = (λ _. refl, λ _. caught_early q m p h)
handle_early (subprocess_error m) q p h = (λ _. refl, λ _. caught_early q m p h)
handle_early (worker_busy m) q p h = (λ _. refl, λ _. caught_early q m p h)
handle_early (recursion_error m) q p h = (λ _. refl, λ _. caught_early q m p h)

module _ (w : World) (insecure : Bool) where
  conclude-IsLate :
      (x : Metrics × Fields × ℤ) (q : Report) → IsLate q → IsLate (report_of (conclude w x q))
  unfolding conclude
  conclude-IsLate (declared, scoring, pos zero) q (late, _) =
      scored w.at_score (score_entry scoring declared.0 declared.1)
        (record q { status = accepted; mathematical_verification = true }) (late, (λ e. cc))
    where
      scored :
          (x : Result (Unit {0})) (y : Result Score) (q : Report)
          → IsLate q
          → IsLate (
              report_of (
                continue (call x q) (λ _.
                  call y >>= (λ score. modify (λ (p : Report). record p { score = some score })))))
      scored (err e) y q p = p
      scored (ok u) (err e) q p = p
      scored (ok u) (ok score) q p = p
  conclude-IsLate (declared, scoring, pos (suc n)) q (late, _) = (late, λ e. cc)
  conclude-IsLate (declared, scoring, negsuc n) q (late, _) = (late, λ e. cc)

  continue-IsLate :
      (o : Outcome (Metrics × Fields × ℤ))
      → IsLate (report_of o)
      → IsLate (report_of (continue o (conclude w)))
  continue-IsLate (returned x q) p = conclude-IsLate x q p
  continue-IsLate (raised e q) p = p

  abbrev IsRefused : Outcome (Bundle × Metrics) → Type 0
  IsRefused o = (e : Exception) × (q : Report) × (o ≡ raised e q) × (is_interrupt e ≡ false)

  behind_source-IsLate :
      (x : Bundle × Metrics) (q : Report)
      → q.status ≢ source_rejected
      → IsLate (report_of (behind_source w insecure x q))
  unfolding behind_source set_up
  behind_source-IsLate x q p =
      behind_source-Keeps Late (λ s s' t b x e (_, f). (e, f)) (λ s t b x (e, _). (e, λ c. cc)) w
        insecure x (record q { stage = setup }) (refl, p)

  attempt-IsRefused :
      (o : Outcome (Bundle × Metrics)) {r : Report}
      → (is_source_stage (report_of o).stage ≡ true) × ((report_of o).status ≢ source_rejected)
      → handle (continue (continue o (behind_source w insecure)) (conclude w)) ≡ ok r
      → (r.status ≡ source_rejected) ↔ IsRefused o
  attempt-IsRefused (returned x q) (_, p) h =
      let late = continue-IsLate (behind_source w insecure x q) (behind_source-IsLate x q p) in
      (
        λ e. absurd (handle_late (continue (behind_source w insecure x q) (conclude w)) late h e),
        λ (e, q', same, _). absurd (cc),
      )
  attempt-IsRefused (raised e q) (early, _) h =
      let (forth, back) = handle_early e q early h in
      (
        λ s. (e, q, refl, forth s),
        λ (e', q', same, f).
            back (subst (λ x. is_interrupt x ≡ false) (sym (raised-injective same)) f),
      )
    where
      raised-injective :
          {e e' : Exception} {q q' : Report}
          → ◌≡◌ {A = Outcome (Bundle × Metrics)} (raised e q) (raised e' q')
          → e ≡ e'
      raised-injective h = cc

final_gates-status : (d : Fields → String) (r : Report) → (final_gates d r).status ≡ r.status
unfolding final_gates
final_gates-status d r = elim (Option-cases r.resource_profile) [
  | inl e ↦ rw e refl
  | inr (p, e) ↦ rw e refl
]

-- A receipt that is written says that the source is rejected exactly when a call up to the end of the
-- source policy raised, behind calls that returned, and that was no interrupt: the capture, the write
-- of the private copy (so that a full disk there is blamed on the source), the copy itself, the
-- metrics, the start of the policy check, or its refusal. A fault of a later stage is never blamed on
-- the source, and a refused source is never called anything else.
pub verify_admitted-rejects :
    (w : World) (insecure : Bool) (r : Report)
    → verify_admitted w insecure ≡ ok r
    → (r.status ≡ source_rejected)
      ↔ ((e : Exception) × IsSourceFault w e × (is_interrupt e ≡ false))
unfolding verify_admitted attempt examine
verify_admitted-rejects w insecure r h =
    let (q, handled, final) = finish_inv w (handle (attempt w insecure new_report)) h in
    let early =
      admit_source-Keeps w (λ s t b x. (is_source_stage s ≡ true) × (t ≢ source_rejected))
        (λ s t b x (_, p). (refl, p)) new_report (refl, (λ e. cc)) in
    let status =
      sym (final_gates-status w.profile_digest q) ∙ ap (λ (x : Report). x.status) final in
    let (forth, back) =
      subst (λ t. (t ≡ source_rejected) ↔ IsRefused w insecure (admit_source w new_report)) status
        (attempt-IsRefused w insecure (admit_source w new_report) early handled) in
    (
      λ e. let (x, q', raises, kind) = forth e in (x, fault_of w new_report raises, kind),
      λ (x, fault, kind).
          let (q', raises) = raised_of w new_report fault in back (x, q', raises, kind),
    )

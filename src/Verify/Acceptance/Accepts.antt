-- ===== src/Verify/Acceptance/Accepts.antt =====
-- A good submission in good surroundings is accepted.
use leansphincs.Base.{
  ◌≡◌, refl, sym, ap, ◌∙◌, Bool, true, String, some, Option-cases, inl, inr, ok, ok-injective,
}
use leansphincs.Base.Int.{pos}
use leansphincs.Base.Value.{Fields}
use leansphincs.Bundle.{Bundle}
use leansphincs.Contract.Metrics.{Metrics}
use leansphincs.Scoring.{Score, score_entry}
use leansphincs.Verify.Report.{accepted, integrity, Report, new_report, returned}
use leansphincs.Verify.World.{World}
use leansphincs.Verify.Stages.{admit_source, set_up, preflight, build_template, compile_and_compare}
use leansphincs.Verify.Checks.{check_integrity}
use leansphincs.Verify.Outcomes.{
  behind_source, examine, conclude, attempt, handle, final_gates, publish, finish, verify_admitted,
}
use leansphincs.Verify.Phases.{
  admit_source_inv, set_up_inv, preflight_inv, build_template_inv, compile_and_compare_inv,
}
use leansphincs.Verify.Acceptance.Reach.{Reaches, call-Reaches, run-Reaches}
use leansphincs.Verify.Acceptance.Agreement.{check_integrity_of}
use leansphincs.Verify.Acceptance.Served.{
  IsServed, admit_source-Reaches, set_up-Reaches, preflight-Reaches, build_template-Reaches,
  compile_and_compare-Reaches,
}

abbrev IsAccepted : Score → Report → Type 0
IsAccepted score r =
    (r.status ≡ accepted) × (r.mathematical_verification ≡ true) × (r.score ≡ some score)

final_gates-IsAccepted :
    (d : Fields → String) (score : Score) (r : Report)
    → IsAccepted score r
    → IsAccepted score (final_gates d r)
unfolding final_gates
final_gates-IsAccepted d score r a = elim (Option-cases r.resource_profile) [
  | inl e ↦ rw e a
  | inr (p, e) ↦ rw e a
]

abbrev Anything : Report → Type 0
Anything r = Unit

module _ (w : World) (insecure : Bool) (bundle : Bundle) (declared : Metrics) (score : Score)
    (s : IsServed w insecure bundle declared score) where
  examine-Reaches : Reaches (examine w insecure new_report) (declared, s.scoring.1, pos 0) Anything
  unfolding examine behind_source
  examine-Reaches =
      let (r₁, source, _) = admit_source-Reaches w insecure bundle declared score s new_report in
      let (r₂, set, _) = set_up-Reaches w insecure bundle declared score s r₁ in
      let (r₃, ready, _) = preflight-Reaches w insecure bundle declared score s r₂ in
      let (r₄, built, _) = build_template-Reaches w insecure bundle declared score s r₃ in
      let (r₅, compared, (mods, art₅)) =
        compile_and_compare-Reaches w insecure bundle declared score s r₄ in
      let (_, sub₁, _) = admit_source_inv w new_report source in
      let (sub₂, _, (m, seen, har₂), (t, pinned, dep₂), (u, known, too₂)) =
        set_up_inv w insecure r₁ set in
      let (sub₃, har₃, dep₃, too₃, _) = preflight_inv w insecure r₂ ready in
      let ((sub₄, har₄, dep₄, too₄, _), _, _) = build_template_inv w (bundle, declared) r₃ built in
      let (sub₅, har₅, dep₅, too₅, _, _, _) =
        compile_and_compare_inv w (bundle, declared) r₄ compared in
      let (m', before, after) = s.harness in
      let (t', first, second) = s.dependencies in
      let (u', first', second') = s.tools in
      let (a, _, kept) = s.artifacts in
      let sub = sub₅ ∙ sub₄ ∙ sub₃ ∙ sub₂ ∙ sub₁ in
      let har = har₅ ∙ har₄ ∙ har₃ ∙ har₂ ∙ ap some (ok-injective m m' (sym seen ∙ before)) in
      let dep = dep₅ ∙ dep₄ ∙ dep₃ ∙ dep₂ ∙ ap some (ok-injective t t' (sym pinned ∙ first)) in
      let too = too₅ ∙ too₄ ∙ too₃ ∙ too₂ ∙ ap some (ok-injective u u' (sym known ∙ first')) in
      let intact =
        check_integrity_of w insecure (record r₅ { stage = integrity }) s.snapshot sub
          (ap w.capture_artifacts mods ∙ kept) art₅ after har second dep second' too in
      run-Reaches Anything (admit_source w new_report) _ source (
        run-Reaches Anything (set_up w insecure r₁) _ set (
          run-Reaches Anything (preflight w insecure r₂) _ ready (
            run-Reaches Anything (build_template w (bundle, declared) r₃) _ built (
              run-Reaches Anything (compile_and_compare w (bundle, declared) r₄) _ compared
                (run-Reaches Anything (check_integrity w insecure _) _ intact (_, refl, tt))))))

  conclude-Reaches :
      (r : Report) → Reaches (conclude w (declared, s.scoring.1, pos 0) r) tt (IsAccepted score)
  unfolding conclude
  conclude-Reaches r =
      let (_, _, _, _, scored) = s.scoring in
      call-Reaches (IsAccepted score) w.at_score _ s.scored (
        call-Reaches (IsAccepted score) (score_entry s.scoring.1 declared.0 declared.1) _ scored
          (_, refl, (refl, refl, refl)))

  attempt-Reaches : Reaches (attempt w insecure new_report) tt (IsAccepted score)
  unfolding attempt
  attempt-Reaches =
      let (r, examined, _) = examine-Reaches in
      run-Reaches (IsAccepted score) (examine w insecure new_report) _ examined (conclude-Reaches r)

handle_returned : (r : Report) → handle (returned tt r) ≡ ok r
unfolding handle
handle_returned r = refl

-- A submission whose source is admitted, in surroundings where every call returns, the profiles load,
-- the score is defined, the four programs exit with zero and the second look agrees with the first,
-- gets a receipt that says accepted and verified, with its score.
pub verify_admitted-accepts :
    (w : World) (insecure : Bool) (bundle : Bundle) (declared : Metrics) (score : Score)
    → IsServed w insecure bundle declared score
    → (r : Report) × (verify_admitted w insecure ≡ ok r)
      × (r.status ≡ accepted)
      × (r.mathematical_verification ≡ true)
      × (r.score ≡ some score)
unfolding verify_admitted
verify_admitted-accepts w insecure bundle declared score s =
    let (q, attempted, a) = attempt-Reaches w insecure bundle declared score s in
    let (status, verified, scored) = final_gates-IsAccepted w.profile_digest score q a in
    (
      final_gates w.profile_digest q,
      ap (λ o. finish w (handle o)) attempted
          ∙ (ap (finish w) (handle_returned q)
              ∙ ap (λ x. publish x (final_gates w.profile_digest q)) s.published),
      status,
      verified,
      scored,
    )

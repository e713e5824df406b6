-- ===== src/Verify/Verified.antt =====
-- What a run has seen when the comparator exits with zero and the integrity checks pass.
use leansphincs.Base.{◌≡◌, subst, ap, ◌∙◌, String, Bool, List, Option, some, ok}
use leansphincs.Base.Int.{ℤ, pos}
use leansphincs.Base.Value.{Fields}
use leansphincs.Bundle.{Bundle, Manifest, capture}
use leansphincs.Contract.Metrics.{Metrics}
use leansphincs.Verify.Report.{Table, Report, integrity, new_report, returned}
use leansphincs.Verify.World.{
  World, trusted_build, axiom_audit, compiler, comparator, check_dependencies, digests,
}
use leansphincs.Verify.Stages.{
  tool_names, manifest_of, harness_manifest, admit_source, set_up, preflight, build_template,
  compile_and_compare,
}
use leansphincs.Verify.Checks.{check_integrity}
use leansphincs.Verify.Outcomes.{behind_source, examine}
use leansphincs.Verify.Runs.{returned-injective, run_then}
use leansphincs.Verify.Phases.{
  IsAdmitted, admit_source_inv, set_up_inv, preflight_inv, build_template_inv,
  compile_and_compare_inv,
}
use leansphincs.Verify.Integrity.{check_integrity_inv}

-- The evidence behind a verified submission: an admitted source, four programs that exited with
-- zero, and a second look that found the snapshot, the frozen artifacts, the harness, the
-- dependencies and the tools as the first look had found them.
pub record IsVerified (w : World) (insecure : Bool) (bundle : Bundle) (declared : Metrics)
    : Type 0 where
  pub admitted : IsAdmitted w bundle declared
  pub built : w.run trusted_build ≡ ok (pos 0)
  pub audited : w.run axiom_audit ≡ ok (pos 0)
  pub compiled : w.run compiler ≡ ok (pos 0)
  pub compared : w.run comparator ≡ ok (pos 0)
  pub snapshot :
      (b : Bundle) × (capture w.snapshot ≡ ok b) × (manifest_of w b ≡ manifest_of w bundle)
  pub artifacts :
      (modules : List String) × (a : Bundle) × (b : Bundle) × (w.freeze_artifacts modules ≡ ok a)
      × (w.capture_artifacts modules ≡ ok b)
      × (manifest_of w b ≡ manifest_of w a)
  pub harness :
      (m : Manifest) × (harness_manifest w w.before ≡ ok m) × (harness_manifest w w.after ≡ ok m)
  pub dependencies :
      (t : Table) × (check_dependencies w.before ≡ ok t) × (check_dependencies w.after ≡ ok t)
  pub tools :
      (t : Table) × (digests w.before.digest (tool_names insecure) ≡ ok t)
      × (digests w.after.digest (tool_names insecure) ≡ ok t)

some_eq : {A : Type 0} {o : Option A} {a b : A} → o ≡ some a → o ≡ some b → b ≡ a
some_eq e f = cc

module _ (w : World) (insecure : Bool) where
  pub examine_inv :
      {s : Report} {declared : Metrics} {scoring : Fields}
      → examine w insecure new_report ≡ returned (declared, scoring, pos 0) s
      → (bundle : Bundle) × IsVerified w insecure bundle declared
  unfolding examine behind_source
  examine_inv h =
      let ((bundle, declared), r₁, source, h₁) = run_then (admit_source w new_report) _ h in
      let (scoring, r₂, set, h₂) = run_then (set_up w insecure r₁) _ h₁ in
      let (_, r₃, ready, h₃) = run_then (preflight w insecure r₂) _ h₂ in
      let (_, r₄, built, h₄) = run_then (build_template w (bundle, declared) r₃) _ h₃ in
      let (code, r₅, compared, h₅) = run_then (compile_and_compare w (bundle, declared) r₄) _ h₄ in
      let (_, r₆, intact, h₆) = run_then (check_integrity w insecure _) _ h₅ in
      let (same, _) = returned-injective h₆ in
      let zero_exit = ap (λ (x : Metrics × Fields × ℤ). x.2) same in
      let (admitted, sub₁, _) = admit_source_inv w new_report source in
      let (sub₂, _, (m, seen, har₂), (t, pinned, dep₂), (u, known, too₂)) =
        set_up_inv w insecure r₁ set in
      let (sub₃, har₃, dep₃, too₃, _) = preflight_inv w insecure r₂ ready in
      let ((sub₄, har₄, dep₄, too₄, _), trusted, audited) =
        build_template_inv w (bundle, declared) r₃ built in
      let (sub₅, har₅, dep₅, too₅, compiled, ran, (a, frozen, art₅)) =
        compile_and_compare_inv w (bundle, declared) r₄
          (compared ∙ ap (λ n. returned n r₅) zero_exit) in
      let sub = sub₅ ∙ sub₄ ∙ sub₃ ∙ sub₂ ∙ sub₁ in
      let har = har₅ ∙ har₄ ∙ har₃ ∙ har₂ in
      let dep = dep₅ ∙ dep₄ ∙ dep₃ ∙ dep₂ in
      let too = too₅ ∙ too₄ ∙ too₃ ∙ too₂ in
      let (
        (b, captured, sub₆),
        (a', kept, art₆),
        (m', seen', har₆),
        (t', pinned', dep₆),
        (u', known', too₆),
      ) =
        check_integrity_inv w insecure (record r₅ { stage = integrity }) sub art₅ har dep too
          intact in
      (
        bundle,
        record {
          admitted =
              subst (IsAdmitted w bundle) (ap (λ (x : Metrics × Fields × ℤ). x.0) same) admitted;
          built = trusted;
          audited = audited;
          compiled = compiled;
          compared = ran;
          snapshot = (b, captured, some_eq sub sub₆);
          artifacts = (r₅.artifact_modules, a, a', frozen, kept, some_eq art₅ art₆);
          harness = (m, seen, seen' ∙ ap ok (some_eq har har₆));
          dependencies = (t, pinned, pinned' ∙ ap ok (some_eq dep dep₆));
          tools = (u, known, known' ∙ ap ok (some_eq too too₆));
        },
      )

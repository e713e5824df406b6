-- ===== src/Verify/Phases.antt =====
-- What each stage has seen when it returns.
use leansphincs.Base.{
  ℕ, zero, suc, ◌≡◌, refl, sym, ap, ◌∙◌, String, Bool, true, false, not, some, ok,
}
use leansphincs.Base.Int.{ℤ, pos, negsuc}
use leansphincs.Base.Value.{Fields}
use leansphincs.Bundle.{Bundle, Manifest, capture, materialize}
use leansphincs.Contract.Metrics.{Metrics, metrics}
use leansphincs.Eligibility.{load_resource_profile}
use leansphincs.Scoring.{load_scoring_profile}
use leansphincs.Verify.Report.{Table, Report, returned}
use leansphincs.Verify.World.{
  World, trusted_build, axiom_audit, compiler, comparator, check_dependencies, digests,
}
use leansphincs.Verify.Stages.{
  is_zero, read_copy, tool_names, manifest_of, harness_manifest, admit_source, set_up, preflight,
  template, build_template, compare_frozen, judge, compile_and_compare,
}
use leansphincs.Verify.Runs.{
  returned-injective, call_then, run_then, passed_then, passed, call_returned,
}

-- The directory was captured and copied, its metrics are declared, and its imports are admitted.
abbrev pub IsAdmitted : World → Bundle → Metrics → Type 0
IsAdmitted w bundle declared =
    (capture w.submission ≡ ok bundle)
    × ((files : Bundle) × (materialize false bundle ≡ ok files)
        × (metrics w.loads (read_copy files) ≡ ok declared)
        × ((text : String) × (w.check_imports files ≡ ok (pos 0, text))))

pub zero_code : (n : ℤ) → not (is_zero n) ≡ false → n ≡ pos 0
zero_code (pos n) h = ap pos (zero_nat n h)
  where
    zero_nat : (n : ℕ) → not (is_zero (pos n)) ≡ false → n ≡ 0
    zero_nat zero h = refl
    zero_nat (suc n) h = cc
zero_code (negsuc n) h = cc

module _ (w : World) where
  pub admit_source_inv :
      (r : Report) {s : Report} {bundle : Bundle} {declared : Metrics}
      → admit_source w r ≡ returned (bundle, declared) s
      → IsAdmitted w bundle declared
        × (s.submission ≡ some (manifest_of w bundle))
        × (s.artifacts ≡ r.artifacts)
  unfolding admit_source
  admit_source_inv r h =
      let (bundle, captured, h₁) = call_then (capture w.submission) _ h in
      let (_, _, h₂) = call_then w.write_source _ h₁ in
      let (files, copied, h₃) = call_then (materialize false bundle) _ h₂ in
      let (declared, parsed, h₄) = call_then (metrics w.loads (read_copy files)) _ h₃ in
      let (check, checked, h₅) = call_then (w.check_imports files) _ h₄ in
      let (clean, h₆) = passed_then (not (is_zero check.0)) _ _ h₅ in
      let (same, left) = returned-injective h₆ in
      let same_bundle = ap (λ (x : Bundle × Metrics). x.0) same in
      let same_metrics = ap (λ (x : Bundle × Metrics). x.1) same in
      (
        (
          captured ∙ ap ok same_bundle,
          (
            files,
            ap (materialize false) (sym same_bundle) ∙ copied,
            parsed ∙ ap ok same_metrics,
            (check.1, checked ∙ ap (λ n. ok (n, check.1)) (zero_code check.0 clean)),
          ),
        ),
        sym (ap (λ (x : Report). x.submission) left) ∙ ap (λ b. some (manifest_of w b)) same_bundle,
        sym (ap (λ (x : Report). x.artifacts) left),
      )

  pub set_up_inv :
      (insecure : Bool) (r : Report) {s : Report} {scoring : Fields}
      → set_up w insecure r ≡ returned scoring s
      → (s.submission ≡ r.submission)
        × (s.artifacts ≡ r.artifacts)
        × ((m : Manifest) × (harness_manifest w w.before ≡ ok m) × (s.harness ≡ some m))
        × ((t : Table) × (check_dependencies w.before ≡ ok t) × (s.dependencies ≡ some t))
        × ((t : Table) × (digests w.before.digest (tool_names insecure) ≡ ok t)
            × (s.tools ≡ some t))
  unfolding set_up
  set_up_inv insecure r h =
      let (harness, seen, h₁) = call_then (harness_manifest w w.before) _ h in
      let (resources, _, h₂) = call_then w.resource_profile _ h₁ in
      let (_, _, h₃) = call_then (load_resource_profile resources) _ h₂ in
      let (scoring, _, h₄) = call_then w.scoring_profile _ h₃ in
      let (_, _, h₅) = call_then (load_scoring_profile scoring) _ h₄ in
      let (revisions, pinned, h₆) = call_then (check_dependencies w.before) _ h₅ in
      let (_, _, h₇) = call_then w.lean_prefix _ h₆ in
      let (tools, known, h₈) = call_then (digests w.before.digest (tool_names insecure)) _ h₇ in
      let (_, left) = returned-injective h₈ in
      (
        sym (ap (λ (x : Report). x.submission) left),
        sym (ap (λ (x : Report). x.artifacts) left),
        (harness, seen, sym (ap (λ (x : Report). x.harness) left)),
        (revisions, pinned, sym (ap (λ (x : Report). x.dependencies) left)),
        (tools, known, sym (ap (λ (x : Report). x.tools) left)),
      )

  -- The five fields that the checks of the integrity compare with.
  abbrev pub SameFields : Report → Report → Type 0
  SameFields r s =
      (s.submission ≡ r.submission)
      × (s.harness ≡ r.harness)
      × (s.dependencies ≡ r.dependencies)
      × (s.tools ≡ r.tools)
      × (s.artifacts ≡ r.artifacts)

  pub preflight_inv :
      (insecure : Bool) (r : Report) {s : Report} {u : Unit {0}}
      → preflight w insecure r ≡ returned u s
      → SameFields r s
  unfolding preflight
  preflight_inv true r h =
      let left = (returned-injective h).1 in rw (← left) (refl, refl, refl, refl, refl)
  preflight_inv false r h =
      let (_, _, h₁) = call_then w.check_sandbox _ h in
      let left = (returned-injective h₁).1 in rw (← left) (refl, refl, refl, refl, refl)

  pub build_template_inv :
      (source : Bundle × Metrics) (r : Report) {s : Report} {u : Unit {0}}
      → build_template w source r ≡ returned u s
      → SameFields r s × (w.run trusted_build ≡ ok (pos 0)) × (w.run axiom_audit ≡ ok (pos 0))
  unfolding build_template
  build_template_inv source r h =
      let (_, _, h₁) = call_then (w.prepare_project source.0 (template w source)) _ h in
      let (built, ran, h₂) = call_then (w.run trusted_build) _ h₁ in
      let (fine, h₃) = passed_then (not (is_zero built)) _ _ h₂ in
      let (audited, ran', h₄) = call_then (w.run axiom_audit) _ h₃ in
      let (fine', left) = passed (not (is_zero audited)) _ h₄ in
      (
        rw (← left) (refl, refl, refl, refl, refl),
        ran ∙ ap ok (zero_code built fine),
        ran' ∙ ap ok (zero_code audited fine'),
      )

  -- The other four fields are as before, and the frozen artifacts are those of the report.
  abbrev pub IsCompared : Report → Report → Type 0
  IsCompared r s =
      (s.submission ≡ r.submission)
      × (s.harness ≡ r.harness)
      × (s.dependencies ≡ r.dependencies)
      × (s.tools ≡ r.tools)
      × (w.run compiler ≡ ok (pos 0))
      × (w.run comparator ≡ ok (pos 0))
      × ((a : Bundle) × (w.freeze_artifacts s.artifact_modules ≡ ok a)
          × (s.artifacts ≡ some (manifest_of w a)))

  compare_frozen_inv :
      (source : Bundle × Metrics) (r : Report) {s : Report} {code : ℤ}
      → compare_frozen w source r ≡ returned code s
      → (s.submission ≡ r.submission)
        × (s.harness ≡ r.harness)
        × (s.dependencies ≡ r.dependencies)
        × (s.tools ≡ r.tools)
        × (w.run comparator ≡ ok code)
        × ((a : Bundle) × (w.freeze_artifacts s.artifact_modules ≡ ok a)
            × (s.artifacts ≡ some (manifest_of w a)))
  unfolding compare_frozen
  compare_frozen_inv source r h =
      let (_, _, h₁) = call_then (w.prepare_frozen source.0 (template w source)) _ h in
      let (a, frozen, h₂) = call_then (w.freeze_artifacts _) _ h₁ in
      let (_, _, h₃) = call_then w.write_sandbox _ h₂ in
      let (ran, left) = call_returned (w.run comparator) h₃ in
      rw (← left) (refl, refl, refl, refl, ran, (a, frozen, refl))

  judge_inv :
      (source : Bundle × Metrics) (code : ℤ) (r : Report) {s : Report}
      → judge w source code r ≡ returned (pos 0) s
      → (code ≡ pos 0) × (compare_frozen w source r ≡ returned (pos 0) s)
  unfolding judge
  judge_inv source (pos zero) r h = (refl, h)
  judge_inv source (pos (suc n)) r h = absurd (cc ((returned-injective h).0))
  judge_inv source (negsuc n) r h = absurd (cc ((returned-injective h).0))

  pub compile_and_compare_inv :
      (source : Bundle × Metrics) (r : Report) {s : Report}
      → compile_and_compare w source r ≡ returned (pos 0) s
      → IsCompared r s
  unfolding compile_and_compare
  compile_and_compare_inv source r h =
      let (code, compiled, h₁) = call_then (w.run compiler) _ h in
      let (code', q, judged, h₂) = run_then (judge w source code _) _ h₁ in
      let (zero_exit, left) = returned-injective h₂ in
      let (built, compared) = judge_inv source code _ (judged ∙ ap (λ n. returned n q) zero_exit) in
      let (e₁, e₂, e₃, e₄, ran, artifacts) = compare_frozen_inv source _ compared in
      rw (← left) (e₁, e₂, e₃, e₄, compiled ∙ ap ok built, ran, artifacts)

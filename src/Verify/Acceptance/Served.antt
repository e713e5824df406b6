-- ===== src/Verify/Acceptance/Served.antt =====
-- Surroundings in which nothing goes wrong: every stage of `_verify_admitted` returns.
use leansphincs.Base.{◌≡◌, refl, String, Bool, true, false, List, some, ok}
use leansphincs.Base.Int.{pos}
use leansphincs.Base.Sort.{sort}
use leansphincs.Base.Names.{name_le}
use leansphincs.Base.Value.{Value, Fields}
use leansphincs.Bundle.{Bundle, Manifest, capture, materialize}
use leansphincs.Contract.Metrics.{Metrics, metrics}
use leansphincs.Eligibility.{load_resource_profile}
use leansphincs.Scoring.{Score, load_scoring_profile, score_entry}
use leansphincs.Verify.Report.{Table, Report}
use leansphincs.Verify.World.{
  World, trusted_build, axiom_audit, compiler, comparator, check_dependencies, digests,
}
use leansphincs.Verify.Stages.{
  stems, tool_names, manifest_of, harness_manifest, template, read_copy, admit_source, set_up,
  preflight, build_template, compare_frozen, judge, compile_and_compare,
}
use leansphincs.Verify.Phases.{IsAdmitted}
use leansphincs.Verify.Acceptance.Reach.{Reaches, call-Reaches, run-Reaches, last-Reaches}

-- The names of the modules whose artifacts are frozen.
abbrev pub modules_of : Bundle → List String
modules_of bundle = sort name_le (stems bundle)

-- Every call returns, the four programs exit with zero, the profiles are as their loaders want them,
-- and the second look agrees with the first.
pub record IsServed (w : World) (insecure : Bool) (bundle : Bundle) (declared : Metrics)
    (score : Score) : Type 0 where
  pub admitted : IsAdmitted w bundle declared
  pub source : w.write_source ≡ ok tt
  pub resources :
      (v : Value) × (p : Fields) × (w.resource_profile ≡ ok v) × (load_resource_profile v ≡ ok p)
  pub scoring :
      (v : Value) × (p : Fields) × (w.scoring_profile ≡ ok v)
      × (load_scoring_profile v ≡ ok p)
      × (score_entry p declared.0 declared.1 ≡ ok score)
  pub harness :
      (m : Manifest) × (harness_manifest w w.before ≡ ok m) × (harness_manifest w w.after ≡ ok m)
  pub dependencies :
      (t : Table) × (check_dependencies w.before ≡ ok t) × (check_dependencies w.after ≡ ok t)
  pub lean : (prefix : String) × (w.lean_prefix ≡ ok prefix)
  pub tools :
      (t : Table) × (digests w.before.digest (tool_names insecure) ≡ ok t)
      × (digests w.after.digest (tool_names insecure) ≡ ok t)
  pub sandbox : (v : Value) × (w.check_sandbox ≡ ok v)
  pub project : w.prepare_project bundle (template w (bundle, declared)) ≡ ok tt
  pub built : w.run trusted_build ≡ ok (pos 0)
  pub audited : w.run axiom_audit ≡ ok (pos 0)
  pub compiled : w.run compiler ≡ ok (pos 0)
  pub frozen : w.prepare_frozen bundle (template w (bundle, declared)) ≡ ok tt
  pub artifacts :
      (a : Bundle) × (w.freeze_artifacts (modules_of bundle) ≡ ok a)
      × (w.capture_artifacts (modules_of bundle) ≡ ok a)
  pub sandbox_file : w.write_sandbox ≡ ok tt
  pub compared : w.run comparator ≡ ok (pos 0)
  pub snapshot : capture w.snapshot ≡ ok bundle
  pub scored : w.at_score ≡ ok tt
  pub published : w.write_receipt ≡ ok tt

module _ (w : World) (insecure : Bool) (bundle : Bundle) (declared : Metrics) (score : Score)
    (s : IsServed w insecure bundle declared score) where
  abbrev Anything : Report → Type 0
  Anything r = Unit

  pub admit_source-Reaches : (r : Report) → Reaches (admit_source w r) (bundle, declared) Anything
  unfolding admit_source
  admit_source-Reaches r =
      let (captured, (files, copied, parsed, (text, checked))) = s.admitted in
      call-Reaches Anything (capture w.submission) _ captured (
        call-Reaches Anything w.write_source _ s.source (
          call-Reaches Anything (materialize false bundle) _ copied (
            call-Reaches Anything (metrics w.loads (read_copy files)) _ parsed
              (call-Reaches Anything (w.check_imports files) _ checked (_, refl, tt)))))

  pub set_up-Reaches : (r : Report) → Reaches (set_up w insecure r) (s.scoring.1) Anything
  unfolding set_up
  set_up-Reaches r =
      let (m, seen, _) = s.harness in
      let (v, p, read, loaded) = s.resources in
      let (v', p', read', loaded', _) = s.scoring in
      let (t, pinned, _) = s.dependencies in
      let (prefix, found) = s.lean in
      let (u, known, _) = s.tools in
      call-Reaches Anything (harness_manifest w w.before) _ seen (
        call-Reaches Anything w.resource_profile _ read (
          call-Reaches Anything (load_resource_profile v) _ loaded (
            call-Reaches Anything w.scoring_profile _ read' (
              call-Reaches Anything (load_scoring_profile v') _ loaded' (
                call-Reaches Anything (check_dependencies w.before) _ pinned (
                  call-Reaches Anything w.lean_prefix _ found (
                    call-Reaches Anything (digests w.before.digest (tool_names insecure)) _ known
                      (_, refl, tt))))))))

  preflight-mode : (b : Bool) (r : Report) → Reaches (preflight w b r) tt Anything
  unfolding preflight
  preflight-mode true r = (r, refl, tt)
  preflight-mode false r =
      let (v, probed) = s.sandbox in call-Reaches Anything w.check_sandbox _ probed (_, refl, tt)

  pub preflight-Reaches : (r : Report) → Reaches (preflight w insecure r) tt Anything
  preflight-Reaches = preflight-mode insecure

  pub build_template-Reaches :
      (r : Report) → Reaches (build_template w (bundle, declared) r) tt Anything
  unfolding build_template
  build_template-Reaches r =
      call-Reaches Anything (w.prepare_project bundle (template w (bundle, declared))) _ s.project (
        call-Reaches Anything (w.run trusted_build) _ s.built
          (call-Reaches Anything (w.run axiom_audit) _ s.audited (_, refl, tt)))

  -- The modules and the frozen artifacts of the report.
  abbrev pub IsFrozen : Report → Type 0
  IsFrozen r =
      (r.artifact_modules ≡ modules_of bundle) × (r.artifacts ≡ some (manifest_of w s.artifacts.0))

  compare_frozen-Reaches :
      (r : Report) → Reaches (compare_frozen w (bundle, declared) r) (pos 0) IsFrozen
  unfolding compare_frozen
  compare_frozen-Reaches r =
      let (a, frozen, _) = s.artifacts in
      call-Reaches IsFrozen (w.prepare_frozen bundle (template w (bundle, declared))) _ s.frozen (
        call-Reaches IsFrozen (w.freeze_artifacts (modules_of bundle)) _ frozen (
          call-Reaches IsFrozen w.write_sandbox _ s.sandbox_file
            (last-Reaches IsFrozen (w.run comparator) s.compared (refl, refl))))

  pub compile_and_compare-Reaches :
      (r : Report) → Reaches (compile_and_compare w (bundle, declared) r) (pos 0) IsFrozen
  unfolding compile_and_compare judge
  compile_and_compare-Reaches r =
      let (q, h, p) = compare_frozen-Reaches _ in
      call-Reaches IsFrozen (w.run compiler) _ s.compiled
        (run-Reaches IsFrozen (compare_frozen w (bundle, declared) _) _ h (_, refl, p))

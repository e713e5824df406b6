-- ===== src/Verify/Keeping.antt =====
-- What the stages keep of the stage, the status, the verdict and the score. `Q` is kept when a stage
-- behind the source policy is entered, and when the compilation fails.
use leansphincs.Base.{
  zero, suc, ◌≡◌, refl, Bool, true, false, not, String, List, Option, none, some, Result, raise_if,
}
use leansphincs.Base.Int.{ℤ, pos, negsuc}
use leansphincs.Bundle.{Bundle, Manifest, capture}
use leansphincs.Contract.Metrics.{Metrics}
use leansphincs.Eligibility.{load_resource_profile}
use leansphincs.Scoring.{Score, load_scoring_profile}
use leansphincs.Verify.Report.{
  Stage, setup, sandbox_preflight, compilation, artifact_capture, comparison, integrity, Status,
  verification_failed, Report, Run, ◌>>=◌, ◌>>◌, call,
}
use leansphincs.Verify.World.{
  World, trusted_build, axiom_audit, compiler, comparator, check_dependencies, digests, manifest_eq,
}
use leansphincs.Verify.Stages.{
  is_zero, tool_names, manifest_of, harness_manifest, set_up, preflight, template, build_template,
  compare_frozen, judge, compile_and_compare,
}
use leansphincs.Verify.Checks.{differs, table_differs, check_artifacts, check_integrity}
use leansphincs.Verify.Outcomes.{is_source_stage, behind_source}
use leansphincs.Verify.Runs.{Keeps, Keeps-bind, Keeps-then, Keeps-call}

-- What a fact says of a report, if it speaks of these four fields alone.
abbrev pub OnVerdict : (Stage → Status → Bool → Option Score → Type 0) → Report → Type 0
OnVerdict Q r = Q r.stage r.status r.mathematical_verification r.score

module _ (Q : Stage → Status → Bool → Option Score → Type 0) where
  abbrev pub P : Report → Type 0
  P = OnVerdict Q

  -- A call, and then the rest.
  module _ {A B : Type 0} where
    pub called : (x : Result A) (k : A → Run B) → ((a : A) → Keeps P (k a)) → Keeps P (call x >>= k)
    called x k f = Keeps-bind P (call x) k (Keeps-call P x) f

    pub ran :
        (m : Run A) (k : A → Run B) → Keeps P m → ((a : A) → Keeps P (k a)) → Keeps P (m >>= k)
    ran m k f g = Keeps-bind P m k f g

  pub done : {B : Type 0} (x : Result (Unit {0})) (k : Run B) → Keeps P k → Keeps P (call x >> k)
  done x k f = Keeps-then P (call x) k (Keeps-call P x) f

  module _
      (enters : (s s' : Stage) (t : Status) (b : Bool) (x : Option Score)
        → is_source_stage s' ≡ false
        → Q s t b x
        → Q s' t b x)
      (fails : (s : Stage) (t : Status) (b : Bool) (x : Option Score)
        → Q s t b x
        → Q s verification_failed b x)
      (w : World) where
    set_up-Keeps : (insecure : Bool) → Keeps P (set_up w insecure)
    unfolding set_up
    set_up-Keeps insecure r p =
        called (harness_manifest w w.before) _
          (λ harness r p.
            called w.resource_profile _
              (λ v. called (load_resource_profile v) _ (λ resources r p.
                called w.scoring_profile _
                  (λ v. called (load_scoring_profile v) _ (λ scoring r p.
                    called (check_dependencies w.before) _
                      (λ revisions r p.
                        called w.lean_prefix _
                          (λ lean.
                            called (digests w.before.digest (tool_names insecure)) _
                              (λ tools r p. p))
                          _ p)
                      _ p))
                  _ p))
              _ p)
          _ (enters _ setup _ _ _ refl p)

    preflight-Keeps : (insecure : Bool) → Keeps P (preflight w insecure)
    unfolding preflight
    preflight-Keeps true r p = p
    preflight-Keeps false r p =
        called w.check_sandbox _ (λ answer r p. p) _ (enters _ sandbox_preflight _ _ _ refl p)

    build_template-Keeps : (source : Bundle × Metrics) → Keeps P (build_template w source)
    unfolding build_template
    build_template-Keeps source r p =
        done (w.prepare_project source.0 (template w source)) _
          (called (w.run trusted_build) _ (λ built. done (raise_if (not (is_zero built)) _) _ (
            called (w.run axiom_audit) _
              (λ audited. Keeps-call P (raise_if (not (is_zero audited)) _)))))
          _ (enters _ Stage.trusted_build _ _ _ refl p)

    compare_frozen-Keeps : (source : Bundle × Metrics) → Keeps P (compare_frozen w source)
    unfolding compare_frozen
    compare_frozen-Keeps source r p =
        done (w.prepare_frozen source.0 (template w source)) _
          (λ r p.
            called (w.freeze_artifacts _) _
              (λ artifacts r p.
                done w.write_sandbox _
                  (λ r p. Keeps-call P (w.run comparator) _ (enters _ comparison _ _ _ refl p)) _ p)
              _ p)
          _ (enters _ artifact_capture _ _ _ refl p)

    judge-Keeps : (source : Bundle × Metrics) (code : ℤ) → Keeps P (judge w source code)
    unfolding judge
    judge-Keeps source (pos zero) r p = compare_frozen-Keeps source r p
    judge-Keeps source (pos (suc n)) r p = fails _ _ _ _ p
    judge-Keeps source (negsuc n) r p = fails _ _ _ _ p

    compile_and_compare-Keeps : (source : Bundle × Metrics) → Keeps P (compile_and_compare w source)
    unfolding compile_and_compare
    compile_and_compare-Keeps source r p =
        called (w.run compiler) _
          (λ code r p. ran (judge w source code) _ (judge-Keeps source code) (λ code r p. p) _ p) _
          (enters _ compilation _ _ _ refl p)

    check_artifacts-Keeps :
        (m : Option Manifest) (modules : List String) → Keeps P (check_artifacts w m modules)
    unfolding check_artifacts
    check_artifacts-Keeps none modules r p = p
    check_artifacts-Keeps (some m) modules r p =
        called (w.capture_artifacts modules) _
          (λ artifacts. Keeps-call P (raise_if (not (manifest_eq (manifest_of w artifacts) m)) _)) r
          p

    check_integrity-Keeps : (insecure : Bool) → Keeps P (check_integrity w insecure)
    unfolding check_integrity
    check_integrity-Keeps insecure r p =
        called (capture w.snapshot) _
          (λ snapshot. done (raise_if (differs w r.submission (manifest_of w snapshot)) _) _ (
            Keeps-then P (check_artifacts w r.artifacts r.artifact_modules) _
              (check_artifacts-Keeps r.artifacts r.artifact_modules)
              (called (harness_manifest w w.after) _ (λ harness.
                done (raise_if (differs w r.harness harness) _) _ (
                  called (check_dependencies w.after) _ (λ revisions.
                    done (raise_if (table_differs w r.dependencies revisions) _) _ (
                      called (digests w.after.digest (tool_names insecure)) _
                        (λ tools. Keeps-call P (raise_if (table_differs w r.tools tools) _)))))))))
          r p

    -- All the stages behind the source policy.
    pub behind_source-Keeps :
        (insecure : Bool) (source : Bundle × Metrics) → Keeps P (behind_source w insecure source)
    unfolding behind_source
    behind_source-Keeps insecure source =
        ran (set_up w insecure) _ (set_up-Keeps insecure) (λ scoring.
          Keeps-then P (preflight w insecure) _ (preflight-Keeps insecure) (
            Keeps-then P (build_template w source) _ (build_template-Keeps source) (
              ran (compile_and_compare w source) _ (compile_and_compare-Keeps source) (λ code r p.
                Keeps-then P (check_integrity w insecure) _ (check_integrity-Keeps insecure)
                  (λ r p. p) _ (enters _ integrity _ _ _ refl p)))))

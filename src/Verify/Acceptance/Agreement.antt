-- ===== src/Verify/Acceptance/Agreement.antt =====
-- A second look that sees the same passes `check_integrity`.
use text.Mathlib.TextEquality.{eq_iff}
use leansphincs.Base.{
  ◌≡◌, refl, ap, ◌∙◌, String, Bool, true, false, not, List, [], ◌∷◌, Option, some, Exception,
  raise_if, runtime_error, ok, ==_iff,
}
use leansphincs.Bundle.{Bundle, FileEntry, Manifest, capture}
use leansphincs.Verify.Report.{Table, Report, returned, continue, call}
use leansphincs.Verify.World.{World, check_dependencies, digests, manifest_eq, files_eq, table_eq}
use leansphincs.Verify.Stages.{tool_names, manifest_of, harness_manifest}
use leansphincs.Verify.Checks.{differs, table_differs, check_artifacts, check_integrity}
use leansphincs.Verify.Acceptance.Reach.{Reaches, call-Reaches, run-Reaches, pass-Reaches}

table_eq_refl : (t : Table) → table_eq t t ≡ true
table_eq_refl [] = refl
table_eq_refl ((n, d) ∷ t) = rw ((eq_iff n n).1 refl, (eq_iff d d).1 refl) (table_eq_refl t)

files_eq_refl : (t : List (String × FileEntry)) → files_eq t t ≡ true
files_eq_refl [] = refl
files_eq_refl ((n, d) ∷ t) =
    rw ((eq_iff n n).1 refl, (==_iff d.size d.size).1 refl, (eq_iff d.sha256 d.sha256).1 refl)
      (files_eq_refl t)

manifest_eq_refl : (m : Manifest) → manifest_eq m m ≡ true
manifest_eq_refl m = rw ((eq_iff m.sha256 m.sha256).1 refl) (files_eq_refl m.files)

passed_report :
    {r : Report} (c : Bool) (e : Exception)
    → c ≡ false
    → Reaches (call (raise_if c e) r) tt (λ s. s ≡ r)
passed_report {r} c e h = (r, ap (λ b. call (raise_if b e) r) h, refl)

module _ (w : World) where
  differs_same : (o : Option Manifest) (m : Manifest) → o ≡ some m → differs w o m ≡ false
  differs_same o m e = ap (λ x. differs w x m) e ∙ ap not (manifest_eq_refl m)

  table_differs_same : (o : Option Table) (t : Table) → o ≡ some t → table_differs w o t ≡ false
  table_differs_same o t e = ap (λ x. table_differs w x t) e ∙ ap not (table_eq_refl t)

  check_artifacts_same :
      (o : Option Manifest) (modules : List String) (r : Report) {a : Bundle}
      → w.capture_artifacts modules ≡ ok a
      → o ≡ some (manifest_of w a)
      → check_artifacts w o modules r ≡ returned tt r
  unfolding check_artifacts
  check_artifacts_same o modules r {a} captured e =
      ap (λ x. check_artifacts w x modules r) e
      ∙ (ap
            (λ x. continue (call x r) (λ artifacts. call (
              raise_if (not (manifest_eq (manifest_of w artifacts) (manifest_of w a)))
                (runtime_error "artifact snapshot changed during verification"))))
            captured
          ∙ ap
              (λ b.
                call
                  (raise_if (not b) (runtime_error "artifact snapshot changed during verification"))
                  r)
              (manifest_eq_refl (manifest_of w a)))

  -- The check returns and leaves the report as it is.
  pub check_integrity_of :
      (insecure : Bool) (r : Report) {b a : Bundle} {m : Manifest} {t u : Table}
      → capture w.snapshot ≡ ok b
      → r.submission ≡ some (manifest_of w b)
      → w.capture_artifacts r.artifact_modules ≡ ok a
      → r.artifacts ≡ some (manifest_of w a)
      → harness_manifest w w.after ≡ ok m
      → r.harness ≡ some m
      → check_dependencies w.after ≡ ok t
      → r.dependencies ≡ some t
      → digests w.after.digest (tool_names insecure) ≡ ok u
      → r.tools ≡ some u
      → check_integrity w insecure r ≡ returned tt r
  unfolding check_integrity
  check_integrity_of insecure r h₁ e₁ h₂ e₂ h₃ e₃ h₄ e₄ h₅ e₅ =
      let P : Report → Type 0 = λ s. s ≡ r in
      let (s, h, same) : Reaches (check_integrity w insecure r) tt P =
        call-Reaches P (capture w.snapshot) _ h₁ (
          pass-Reaches P (differs w r.submission _) _ _ (differs_same r.submission _ e₁) (
            run-Reaches P (check_artifacts w r.artifacts r.artifact_modules r) _
              (check_artifacts_same r.artifacts r.artifact_modules r h₂ e₂)
              (call-Reaches P (harness_manifest w w.after) _ h₃ (
                pass-Reaches P (differs w r.harness _) _ _ (differs_same r.harness _ e₃) (
                  call-Reaches P (check_dependencies w.after) _ h₄ (
                    pass-Reaches P (table_differs w r.dependencies _) _ _
                      (table_differs_same r.dependencies _ e₄)
                      (call-Reaches P (digests w.after.digest (tool_names insecure)) _ h₅ (
                        passed_report (table_differs w r.tools _) _
                          (table_differs_same r.tools _ e₅))))))))) in
      h ∙ ap (returned tt) same

-- ===== src/Verify/Integrity.antt =====
-- What `check_integrity` has compared when it returns.
use text.Mathlib.TextEquality.{eq_iff}
use leansphincs.Base.{
  ◌≡◌, refl, sym, ap, ap₂, ◌∙◌, String, Bool, true, false, not, List, [], ◌∷◌, Option, none, some,
  arith, ok,
}
use leansphincs.Bundle.{Bundle, FileEntry, Manifest, capture}
use leansphincs.Verify.Report.{Table, Report, returned}
use leansphincs.Verify.World.{World, check_dependencies, digests, manifest_eq, files_eq, table_eq}
use leansphincs.Verify.Stages.{tool_names, manifest_of, harness_manifest}
use leansphincs.Verify.Checks.{differs, table_differs, check_artifacts, check_integrity}
use leansphincs.Verify.Runs.{call_then, run_then, passed_then, passed}

table_eq_sound : (t u : Table) → table_eq t u ≡ true → t ≡ u
table_eq_sound [] [] h = refl
table_eq_sound [] (e ∷ u) h = cc
table_eq_sound (d ∷ t) [] h = cc
table_eq_sound ((n, d) ∷ t) ((m, e) ∷ u) h =
    let p = (eq_iff n m).0 (ground arith) in
    let q = (eq_iff d e).0 (ground arith) in let rest = table_eq_sound t u (ground arith) in cc

files_eq_sound : (t u : List (String × FileEntry)) → files_eq t u ≡ true → t ≡ u
files_eq_sound [] [] h = refl
files_eq_sound [] (e ∷ u) h = cc
files_eq_sound (d ∷ t) [] h = cc
files_eq_sound ((n, d) ∷ t) ((m, e) ∷ u) h =
    let p = (eq_iff n m).0 (ground arith) in
    let size : d.size ≡ e.size = ground arith in
    let q = (eq_iff d.sha256 e.sha256).0 (ground arith) in
    let same : d ≡ e = ap₂ (λ x y. record { size = x; sha256 = y }) size q in
    let rest = files_eq_sound t u (ground arith) in ap₂ (◌∷◌) (ap₂ (λ x y. (x, y)) p same) rest

manifest_eq_sound : (a b : Manifest) → manifest_eq a b ≡ true → a ≡ b
manifest_eq_sound a b h =
    ap₂ (λ x y. record { sha256 = x; files = y }) ((eq_iff a.sha256 b.sha256).0 (ground arith))
      (files_eq_sound a.files b.files (ground arith))

module _ (w : World) where
  differs_inv :
      (o : Option Manifest) {n : Manifest} (m : Manifest)
      → o ≡ some n
      → differs w o m ≡ false
      → m ≡ n
  differs_inv none m e h = cc
  differs_inv (some n) m e h = manifest_eq_sound m n (ground arith) ∙ cc

  table_differs_inv :
      (o : Option Table) {u : Table} (t : Table) → o ≡ some u → table_differs w o t ≡ false → t ≡ u
  table_differs_inv none t e h = cc
  table_differs_inv (some u) t e h = table_eq_sound t u (ground arith) ∙ cc

  check_artifacts_inv :
      (m : Option Manifest) (modules : List String) (r : Report) {s : Report} {u : Unit {0}}
      {n : Manifest}
      → m ≡ some n
      → check_artifacts w m modules r ≡ returned u s
      → (a : Bundle) × (w.capture_artifacts modules ≡ ok a) × (manifest_of w a ≡ n)
  unfolding check_artifacts
  check_artifacts_inv none modules r e h = cc
  check_artifacts_inv (some m) modules r e h =
      let (a, captured, h₁) = call_then (w.capture_artifacts modules) _ h in
      let (same, left) = passed (not (manifest_eq (manifest_of w a) m)) _ h₁ in
      (a, captured, manifest_eq_sound (manifest_of w a) m (ground arith) ∙ cc)

  -- The second look found what the report holds.
  abbrev pub IsIntact : Bool → Report → Type 0
  IsIntact insecure r =
      ((b : Bundle) × (capture w.snapshot ≡ ok b) × (r.submission ≡ some (manifest_of w b)))
      × ((a : Bundle) × (w.capture_artifacts r.artifact_modules ≡ ok a)
          × (r.artifacts ≡ some (manifest_of w a)))
      × ((m : Manifest) × (harness_manifest w w.after ≡ ok m) × (r.harness ≡ some m))
      × ((t : Table) × (check_dependencies w.after ≡ ok t) × (r.dependencies ≡ some t))
      × ((t : Table) × (digests w.after.digest (tool_names insecure) ≡ ok t) × (r.tools ≡ some t))

  pub check_integrity_inv :
      (insecure : Bool) (r : Report) {s : Report} {u : Unit {0}}
      {submission artifacts harness : Manifest} {dependencies tools : Table}
      → r.submission ≡ some submission
      → r.artifacts ≡ some artifacts
      → r.harness ≡ some harness
      → r.dependencies ≡ some dependencies
      → r.tools ≡ some tools
      → check_integrity w insecure r ≡ returned u s
      → IsIntact insecure r
  unfolding check_integrity
  check_integrity_inv insecure r e₁ e₂ e₃ e₄ e₅ h =
      let (b, captured, h₁) = call_then (capture w.snapshot) _ h in
      let (same₁, h₂) = passed_then (differs w r.submission (manifest_of w b)) _ _ h₁ in
      let (_, _, found, h₃) = run_then (check_artifacts w r.artifacts r.artifact_modules _) _ h₂ in
      let (harness, seen, h₄) = call_then (harness_manifest w w.after) _ h₃ in
      let (same₃, h₅) = passed_then (differs w r.harness harness) _ _ h₄ in
      let (revisions, pinned, h₆) = call_then (check_dependencies w.after) _ h₅ in
      let (same₄, h₇) = passed_then (table_differs w r.dependencies revisions) _ _ h₆ in
      let (tools, known, h₈) = call_then (digests w.after.digest (tool_names insecure)) _ h₇ in
      let (same₅, _) = passed (table_differs w r.tools tools) _ h₈ in
      let (a, kept, same₂) = check_artifacts_inv r.artifacts r.artifact_modules _ e₂ found in
      (
        (b, captured, e₁ ∙ ap some (sym (differs_inv r.submission (manifest_of w b) e₁ same₁))),
        (a, kept, e₂ ∙ ap some (sym same₂)),
        (harness, seen, e₃ ∙ ap some (sym (differs_inv r.harness harness e₃ same₃))),
        (
          revisions,
          pinned,
          e₄ ∙ ap some (sym (table_differs_inv r.dependencies revisions e₄ same₄)),
        ),
        (tools, known, e₅ ∙ ap some (sym (table_differs_inv r.tools tools e₅ same₅))),
      )

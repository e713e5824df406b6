-- ===== src/Artifacts/Frozen.antt =====
-- A frozen snapshot is the snapshot: `freeze_artifacts` and a second `capture_artifacts`.
use text.Mathlib.Text.{◌==◌ as str_eq}
use leansphincs.Base.{
  ℕ, ◌≡◌, refl, sym, String, true, false, Bool-cases, inl, inr, List, [], ◌∷◌, Option, some, arith,
  length, All, All-map, Result, ok,
}
use leansphincs.Base.Value.{str_mem}
use leansphincs.Base.Sort.{sort, sort-All, sort-All_inv, sort-IsSorted, sort_of_sorted}
use leansphincs.Base.Names.{name_le, name_le_total, name_le_trans}
use leansphincs.Bundle.{Opened, Folder, Bundle, FileEntry, find, has_all_names, manifest}
use leansphincs.Bundle.Acceptance.{keys}
use leansphincs.Bundle.Copy.{
  NodupNames, folder_of, FoundIn, FoundIn-self, Absent-nil, write_all_fresh,
}
use leansphincs.Artifacts.{allowed, oleans, required_of, capture_artifacts, freeze_artifacts}
use leansphincs.Artifacts.Acceptance.{IsArtifact, AllArtifacts, IsSnapshot, capture_artifacts_iff}

has_each : (ns ms : List String) → has_all_names ns ms ≡ true → All (λ n. str_mem n ms ≡ true) ns
has_each [] ms h = tt
has_each (n ∷ ns) ms h = (ground arith, has_each ns ms (ground arith))

has_of : (ns ms : List String) → All (λ n. str_mem n ms ≡ true) ns → has_all_names ns ms ≡ true
has_of [] ms h = refl
has_of (n ∷ ns) ms h = rw h.0 (has_of ns ms h.1)

missing_each :
    (n : String) (ms : List String) → str_mem n ms ≡ false → All (λ m. str_eq n m ≡ false) ms
missing_each n [] h = tt
missing_each n (m ∷ ms) h = (ground arith, missing_each n ms (ground arith))

missing_of :
    (n : String) (ms : List String) → All (λ m. str_eq n m ≡ false) ms → str_mem n ms ≡ false
missing_of n [] h = refl
missing_of n (m ∷ ms) h = rw h.0 (missing_of n ms h.1)

mem-sort :
    (n : String) (ms : List String) → str_mem n ms ≡ true → str_mem n (sort name_le ms) ≡ true
mem-sort n ms h = elim (Bool-cases (str_mem n (sort name_le ms))) [
  | inl e ↦ e
  | inr e ↦
      let gone =
        missing_of n ms (
          sort-All_inv name_le (λ m. str_eq n m ≡ false) ms (missing_each n (sort name_le ms) e)) in
      absurd (cc)
]

module _ (open_at : String → Result Opened) (files : Bundle) where
  IsArtifact-copy :
      (name : String) (bytes : List ℕ)
      → find name files ≡ some bytes
      → IsArtifact open_at name bytes
      → IsArtifact (folder_of files).open_at name bytes
  unfolding folder_of
  IsArtifact-copy name bytes found (_, _, _, _, _, fits) = (
    record { regular = true; st_size = length bytes; contents = bytes },
    rw (found, folder_of),
    refl,
    fits,
    refl,
    fits,
  )

  AllArtifacts-copy :
      (part : Bundle)
      → FoundIn files part
      → AllArtifacts open_at part
      → AllArtifacts (folder_of files).open_at part
  AllArtifacts-copy [] f h = tt
  AllArtifacts-copy ((name, bytes) ∷ part) f h =
      (IsArtifact-copy name bytes f.0 h.0, AllArtifacts-copy part f.1 h.1)

-- The directory that the files were frozen to is a snapshot of the same bundle.
IsSnapshot-copy :
    (modules : List String) (required : Option (List String)) (folder : Folder) (bundle : Bundle)
    → NodupNames (keys bundle)
    → IsSnapshot modules required folder bundle
    → IsSnapshot modules required (folder_of bundle) bundle
unfolding folder_of
IsSnapshot-copy modules required folder bundle u (expected, declared, compiled, same, all, fits) =
    let each : All (λ n. str_mem n (allowed modules) ≡ true) (keys bundle) = rw same (
      sort-All name_le (λ n. str_mem n (allowed modules) ≡ true) folder.names
        (has_each folder.names (allowed modules) expected)) in
    let olean_names = oleans (required_of modules required) in
    let found : All (λ n. str_mem n (keys bundle) ≡ true) olean_names = rw same (
      All-map (λ n. str_mem n folder.names ≡ true)
        (λ n. str_mem n (sort name_le folder.names) ≡ true) olean_names
        (λ n. mem-sort n folder.names) (has_each olean_names folder.names compiled)) in
    (
      has_of (keys bundle) (allowed modules) each,
      declared,
      has_of olean_names (keys bundle) found,
      sym (
          sort_of_sorted name_le (keys bundle)
            (rw same (sort-IsSorted name_le name_le_total name_le_trans folder.names))),
      AllArtifacts-copy folder.open_at bundle bundle (FoundIn-self bundle u) all,
      fits,
    )

-- Captured artifacts with distinct names are frozen whole into an empty directory, with the manifest
-- of the capture, and a second capture of that directory gives the same bundle: where nobody
-- interferes, the check of the integrity finds the manifest that the report holds.
pub freeze-capture :
    (sha256 : List ℕ → String) (encode : List (String × FileEntry) → List ℕ) (root : Result Folder)
    (modules prefix : List String) (required : Option (List String)) (bundle : Bundle)
    → capture_artifacts root modules prefix required ≡ ok bundle
    → NodupNames (keys bundle)
    → (freeze_artifacts sha256 encode root [] modules prefix required
        ≡ ok (bundle, manifest sha256 encode bundle))
      × (capture_artifacts (ok (folder_of bundle)) modules prefix required ≡ ok bundle)
unfolding freeze_artifacts
freeze-capture sha256 encode root modules prefix required bundle h u =
    let (clean, (folder, _, s)) = (capture_artifacts_iff modules prefix required root bundle).0 h in
    (
      rw (h, write_all_fresh bundle [] u (Absent-nil (keys bundle))) refl,
      (capture_artifacts_iff modules prefix required (ok (folder_of bundle)) bundle).1
          (clean, (folder_of bundle, refl, IsSnapshot-copy modules required folder bundle u s)),
    )

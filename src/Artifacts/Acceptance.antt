-- ===== src/Artifacts/Acceptance.antt =====
-- What `capture_artifacts` accepts, and what `freeze_artifacts` leaves.
use leansphincs.Base.{
  ℕ, ◌+◌, ◌-◌, ◌≤◌, ◌≡◌, refl, sym, subst, ap, ◌∙◌, ◌↔◌, min, String, true, not, ◌||◌, Option, List,
  [], ◌∷◌, arith, ltb, ltb-false_of_le, length, Result, ok, bind-eq-ok, raise_if_then, ok-injective,
}
use leansphincs.Base.Sort.{sort}
use leansphincs.Base.Names.{name_le}
use leansphincs.Bundle.{Opened, Folder, Bundle, read, has_all_names}
use leansphincs.Bundle.Capture.{read_all, read_short}
use leansphincs.Bundle.Acceptance.{keys, size}
use leansphincs.Artifacts.{
  max_artifact, max_artifacts, all_identifiers, allowed, required_of, oleans, read_artifact,
  read_artifacts, capture_artifacts,
}

-- `bytes` is all that a regular file within the limit holds.
abbrev pub IsArtifact : (String → Result Opened) → String → List ℕ → Type 0
IsArtifact open_at name bytes =
    (info : Opened) × (open_at name ≡ ok info)
    × (info.regular ≡ true)
    × (info.st_size ≤ max_artifact)
    × (info.contents ≡ bytes)
    × (length bytes ≤ max_artifact)

abbrev pub AllArtifacts : (String → Result Opened) → Bundle → Type 0
AllArtifacts open_at [] = Unit
AllArtifacts open_at ((name, bytes) ∷ bundle) =
    IsArtifact open_at name bytes × AllArtifacts open_at bundle

-- The cap of one read leaves no file within the limits cut off.
min_bounds : (a b n : ℕ) → n ≤ a → n ≤ b → n ≤ min a b
min_bounds a b n h k = ground arith

read_artifact_inv :
    (total : ℕ) (info : Opened) (bytes : List ℕ)
    → total ≤ max_artifacts
    → read_artifact total info ≡ ok bytes
    → (info.regular ≡ true)
      × (info.st_size ≤ max_artifact)
      × (info.contents ≡ bytes)
      × (length bytes ≤ max_artifact)
      × (total + length bytes ≤ max_artifacts)
unfolding read_artifact
read_artifact_inv total info bytes room h =
    let cap = min max_artifact (max_artifacts - total) in
    let got = read (cap + 1) info.contents in
    let (fine, h₁) = raise_if_then (not info.regular || ltb max_artifact info.st_size) _ _ h in
    let (fits, h₂) =
      raise_if_then (ltb max_artifact (length got) || ltb max_artifacts (total + length got)) _ _
        h₁ in
    let one : length got ≤ max_artifact = ground arith in
    let all : total + length got ≤ max_artifacts = ground arith in
    let below = min_bounds max_artifact (max_artifacts - total) (length got) one (omega arith) in
    let whole = read_all (cap + 1) info.contents (omega arith) in
    subst
      (λ (b : List ℕ).
        (info.regular ≡ true)
        × (info.st_size ≤ max_artifact)
        × (info.contents ≡ b)
        × (length b ≤ max_artifact)
        × (total + length b ≤ max_artifacts))
      (ok-injective got bytes h₂) (ground arith, ground arith, sym whole, one, all)

read_artifact_of :
    (total : ℕ) (info : Opened) (bytes : List ℕ)
    → info.regular ≡ true
    → info.st_size ≤ max_artifact
    → info.contents ≡ bytes
    → length bytes ≤ max_artifact
    → total + length bytes ≤ max_artifacts
    → read_artifact total info ≡ ok bytes
unfolding read_artifact
read_artifact_of total info bytes regular small whole fits room =
    let cap = min max_artifact (max_artifacts - total) in
    let below = min_bounds max_artifact (max_artifacts - total) (length bytes) fits (omega arith) in
    let got = read_short (cap + 1) info.contents (rw whole (omega arith)) ∙ whole in
    rw (
      regular,
      ltb-false_of_le info.st_size max_artifact small,
      got,
      ltb-false_of_le (length bytes) max_artifact fits,
      ltb-false_of_le (total + length bytes) max_artifacts room,
    )

module _ (open_at : String → Result Opened) where
  read_artifacts_inv :
      (total : ℕ) (names : List String) (bundle : Bundle)
      → total ≤ max_artifacts
      → read_artifacts open_at total names ≡ ok bundle
      → (keys bundle ≡ names) × AllArtifacts open_at bundle × (total + size bundle ≤ max_artifacts)
  unfolding read_artifacts
  read_artifacts_inv total [] [] room h = (refl, tt, omega arith)
  read_artifacts_inv total [] (f ∷ bundle) room h = cc
  read_artifacts_inv total (name ∷ names) bundle room h =
      let (info, opened, h₁) = bind-eq-ok (open_at name) _ h in
      let (bytes, kept, h₂) = bind-eq-ok (read_artifact total info) _ h₁ in
      let (rest, files, h₃) =
        bind-eq-ok (read_artifacts open_at (total + length bytes) names) _ h₂ in
      let (regular, small, whole, fits, room') = read_artifact_inv total info bytes room kept in
      let (same, all, below) = read_artifacts_inv (total + length bytes) names rest room' files in
      subst
        (λ (b : Bundle).
          (keys b ≡ name ∷ names) × AllArtifacts open_at b × (total + size b ≤ max_artifacts))
        (ok-injective ((name, bytes) ∷ rest) bundle h₃)
        (ap (◌∷◌ name) same, ((info, opened, regular, small, whole, fits), all), omega arith)

  read_artifacts_of :
      (total : ℕ) (bundle : Bundle)
      → AllArtifacts open_at bundle
      → total + size bundle ≤ max_artifacts
      → read_artifacts open_at total (keys bundle) ≡ ok bundle
  unfolding read_artifacts
  read_artifacts_of total [] all fits = refl
  read_artifacts_of total ((name, bytes) ∷ bundle) ((info, opened, regular, small, whole, one), all)
        fits =
      rw (
        opened,
        read_artifact_of total info bytes regular small whole one (omega arith),
        read_artifacts_of (total + length bytes) bundle all (omega arith),
      )

-- The compiled modules of the submission: only files that a declared module may have, the compiled
-- file of each required module among them, each the whole of a regular file within the limits.
abbrev pub IsSnapshot : List String → Option (List String) → Folder → Bundle → Type 0
IsSnapshot modules required_modules folder bundle =
    (has_all_names folder.names (allowed modules) ≡ true)
    × (has_all_names (required_of modules required_modules) modules ≡ true)
    × (has_all_names (oleans (required_of modules required_modules)) folder.names ≡ true)
    × (keys bundle ≡ sort name_le folder.names)
    × AllArtifacts folder.open_at bundle
    × (size bundle ≤ max_artifacts)

module _ (modules prefix : List String) (required_modules : Option (List String)) where
  capture_artifacts_inv :
      (root : Result Folder) (bundle : Bundle)
      → capture_artifacts root modules prefix required_modules ≡ ok bundle
      → (all_identifiers prefix ≡ true)
        × ((folder : Folder) × (root ≡ ok folder)
            × IsSnapshot modules required_modules folder bundle)
  unfolding capture_artifacts
  capture_artifacts_inv root bundle h =
      let required = required_of modules required_modules in
      let (clean, h₁) = raise_if_then (not (all_identifiers prefix)) _ _ h in
      let (folder, opened, h₂) = bind-eq-ok root _ h₁ in
      let (expected, h₃) =
        raise_if_then (not (has_all_names folder.names (allowed modules))) _ _ h₂ in
      let (declared, h₄) = raise_if_then (not (has_all_names required modules)) _ _ h₃ in
      let (compiled, h₅) =
        raise_if_then (not (has_all_names (oleans required) folder.names)) _ _ h₄ in
      let (same, all, fits) =
        read_artifacts_inv folder.open_at 0 (sort name_le folder.names) bundle (omega arith) h₅ in
      (
        ground arith,
        (folder, opened, (ground arith, ground arith, ground arith, same, all, omega arith)),
      )

  capture_artifacts_of :
      (folder : Folder) (bundle : Bundle)
      → all_identifiers prefix ≡ true
      → IsSnapshot modules required_modules folder bundle
      → capture_artifacts (ok folder) modules prefix required_modules ≡ ok bundle
  unfolding capture_artifacts
  capture_artifacts_of folder bundle clean (expected, declared, compiled, same, all, fits) =
      rw (clean, expected, declared, compiled, ← same)
        (read_artifacts_of folder.open_at 0 bundle all (omega arith))

  -- `capture_artifacts` returns a bundle exactly when the prefix is made of identifiers, the
  -- directory opens, it has no file but those of the declared modules, the required modules are
  -- declared and compiled, and the bundle is the whole of the directory within the limits.
  pub capture_artifacts_iff :
      (root : Result Folder) (bundle : Bundle)
      → (capture_artifacts root modules prefix required_modules ≡ ok bundle) ↔ (
          (all_identifiers prefix ≡ true)
          × ((folder : Folder) × (root ≡ ok folder)
              × IsSnapshot modules required_modules folder bundle))
  capture_artifacts_iff root bundle = (
    capture_artifacts_inv root bundle,
    λ (clean, (folder, e, s)). rw e (capture_artifacts_of folder bundle clean s),
  )

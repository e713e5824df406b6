-- ===== src/Bundle/Acceptance.antt =====
-- What `capture` accepts: the contract of a submission directory.
use leansphincs.Base.{
  ℕ, ◌+◌, ◌≤◌, ◌≡◌, refl, subst, ap, ◌↔◌, String, true, not, List, [], ◌∷◌, arith, ltb,
  ltb-false_of_le, length, Result, ok, bind-eq-ok, raise_if_then, ok-injective,
}
use leansphincs.Base.Sort.{sort}
use leansphincs.Base.Names.{name_le}
use leansphincs.Bundle.{
  required, max_total, Opened, Folder, Bundle, has_all_names, capture_file, capture_files, capture,
}
use leansphincs.Bundle.Capture.{IsCaptured, capture_file_inv, capture_file_of}

-- The names of a bundle, and its size.
abbrev pub keys : Bundle → List String
keys [] = []
keys ((name, _) ∷ bundle) = name ∷ keys bundle

abbrev pub size : Bundle → ℕ
size [] = 0
size ((_, bytes) ∷ bundle) = length bytes + size bundle

abbrev pub AllCaptured : (String → Result Opened) → Bundle → Type 0
AllCaptured open_at [] = Unit
AllCaptured open_at ((name, bytes) ∷ bundle) =
    IsCaptured open_at name bytes × AllCaptured open_at bundle

module _ (open_at : String → Result Opened) where
  capture_files_inv :
      (total : ℕ) (names : List String) (bundle : Bundle)
      → total ≤ max_total
      → capture_files open_at total names ≡ ok bundle
      → (keys bundle ≡ names) × AllCaptured open_at bundle × (total + size bundle ≤ max_total)
  unfolding capture_files
  capture_files_inv total [] [] room h = (refl, tt, omega arith)
  capture_files_inv total [] (f ∷ bundle) room h = cc
  capture_files_inv total (name ∷ names) bundle room h =
      let (bytes, file, h₁) = bind-eq-ok (capture_file open_at total name) _ h in
      let (rest, files, h₂) =
        bind-eq-ok (capture_files open_at (total + length bytes) names) _ h₁ in
      let (captured, room') = capture_file_inv open_at total name bytes file in
      let (same, all, fits) = capture_files_inv (total + length bytes) names rest room' files in
      subst
        (λ (b : Bundle).
          (keys b ≡ name ∷ names) × AllCaptured open_at b × (total + size b ≤ max_total))
        (ok-injective ((name, bytes) ∷ rest) bundle h₂)
        (ap (◌∷◌ name) same, (captured, all), omega arith)

  capture_files_of :
      (total : ℕ) (bundle : Bundle)
      → AllCaptured open_at bundle
      → total + size bundle ≤ max_total
      → capture_files open_at total (keys bundle) ≡ ok bundle
  unfolding capture_files
  capture_files_of total [] all fits = refl
  capture_files_of total ((name, bytes) ∷ bundle) (captured, all) fits = rw (
    capture_file_of open_at total name bytes captured (omega arith),
    capture_files_of (total + length bytes) bundle all (omega arith),
  )

-- The directory opened, it has at most 1000 names, the bundle has these names in order, the five
-- required ones among them, every entry is the whole of a small regular file of an admitted name,
-- and all together have at most 10 MiB.
abbrev pub IsSubmission : Folder → Bundle → Type 0
IsSubmission folder bundle =
    (length folder.names ≤ 1000)
    × (keys bundle ≡ sort name_le folder.names)
    × (has_all_names required (keys bundle) ≡ true)
    × AllCaptured folder.open_at bundle
    × (size bundle ≤ max_total)

capture_inv :
    (root : Result Folder) (bundle : Bundle)
    → capture root ≡ ok bundle
    → (folder : Folder) × (root ≡ ok folder) × IsSubmission folder bundle
unfolding capture
capture_inv root bundle h =
    let (folder, opened, h₁) = bind-eq-ok root _ h in
    let names = sort name_le folder.names in
    let (few, h₂) = raise_if_then (ltb 1000 (length folder.names)) _ _ h₁ in
    let (complete, h₃) = raise_if_then (not (has_all_names required names)) _ _ h₂ in
    let (same, all, fits) = capture_files_inv folder.open_at 0 names bundle (omega arith) h₃ in
    (folder, opened, (ground arith, same, rw same (ground arith), all, omega arith))

capture_of :
    (folder : Folder) (bundle : Bundle)
    → IsSubmission folder bundle
    → capture (ok folder) ≡ ok bundle
unfolding capture
capture_of folder bundle (few, same, complete, all, fits) =
    rw (ltb-false_of_le (length folder.names) 1000 few, ← same, complete)
      (capture_files_of folder.open_at 0 bundle all (omega arith))

-- `capture` returns a bundle exactly when the directory opens and the bundle is the whole of a
-- submission directory: nothing is cut off, followed, skipped or accepted beyond the limits, and
-- every directory within them is captured.
pub capture_iff :
    (root : Result Folder) (bundle : Bundle)
    → (capture root ≡ ok bundle)
      ↔ ((folder : Folder) × (root ≡ ok folder) × IsSubmission folder bundle)
capture_iff root bundle =
    (capture_inv root bundle, λ (folder, e, s). rw e (capture_of folder bundle s))

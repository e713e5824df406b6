-- ===== src/Bundle/Copy.antt =====
-- A private copy of a captured bundle captures to the same bundle.
use text.Mathlib.Text.{◌==◌ as str_eq}
use text.Mathlib.TextEquality.{eq_iff}
use leansphincs.Base.{
  ℕ, ◌≡◌, refl, sym, ap, ◌∙◌, String, true, false, none, some, List, [], ◌∷◌, ◌++◌, append_assoc,
  append-nil, arith, length, All, All-map₂, Result, ok, err, os_error,
}
use leansphincs.Base.Sort.{length-sort, sort-IsSorted, sort_of_sorted}
use leansphincs.Base.Names.{name_le, name_le_total, name_le_trans}
use leansphincs.Bundle.{Opened, Folder, Bundle, find, write_new, write_all, materialize, capture}
use leansphincs.Bundle.Capture.{IsCaptured}
use leansphincs.Bundle.Acceptance.{keys, AllCaptured, IsSubmission, capture_iff}

-- The directory that holds exactly the files of the bundle.
unfoldable pub folder_of : Bundle → Folder
unfolding find
folder_of bundle = record {
  names = keys bundle;
  open_at = λ name. elim (find name bundle) [
    | none ↦ err (os_error name)
    | some bytes ↦ ok (record { regular = true; st_size = length bytes; contents = bytes })
  ];
}

-- No name is listed twice, as in a directory.
abbrev pub NodupNames : List String → Type 0
NodupNames [] = Unit
NodupNames (n ∷ ns) = All (λ m. str_eq m n ≡ false) ns × NodupNames ns

abbrev pub Absent : Bundle → String → Type 0
Absent files name = find name files ≡ none

find-append :
    (name m : String) (bytes : List ℕ) (files : Bundle)
    → Absent files name
    → str_eq name m ≡ false
    → Absent (files ++ ((m, bytes) ∷ [])) name
unfolding find
find-append name m bytes [] h e = rw e
find-append name m bytes ((n, x) ∷ files) h e = ground (arith, find-append name m bytes files)

write_new-Absent :
    (name : String) (bytes : List ℕ) (files : Bundle)
    → Absent files name
    → write_new name bytes files ≡ ok (files ++ ((name, bytes) ∷ []))
unfolding write_new
write_new-Absent name bytes files h = rw (h, write_new)

write_all_step :
    (name : String) (bytes : List ℕ) (bundle files : Bundle) {files' : Bundle}
    → write_new name bytes files ≡ ok files'
    → write_all ((name, bytes) ∷ bundle) files ≡ write_all bundle files'
write_all_step name bytes bundle files h = unfold write_all in rw h

pub write_all_fresh :
    (bundle files : Bundle)
    → NodupNames (keys bundle)
    → All (Absent files) (keys bundle)
    → write_all bundle files ≡ ok (files ++ bundle)
write_all_fresh [] files u h = unfold write_all in ap ok (sym (append-nil files))
write_all_fresh ((name, bytes) ∷ bundle) files u h =
    let files' = files ++ ((name, bytes) ∷ []) in
    let rest = write_all_fresh bundle files' u.1 (
      All-map₂ (Absent files) (λ m. str_eq m name ≡ false) (Absent files') (keys bundle)
        (λ m. find-append m name bytes files) h.1 u.0) in
    write_all_step name bytes bundle files (write_new-Absent name bytes files h.0)
    ∙ (rest ∙ ap ok (append_assoc files ((name, bytes) ∷ []) bundle))

-- The files of `part` are found in `files`.
abbrev pub FoundIn : Bundle → Bundle → Type 0
FoundIn files [] = Unit
FoundIn files ((name, bytes) ∷ part) = (find name files ≡ some bytes) × FoundIn files part

FoundIn-cons :
    (m : String) (x : List ℕ) (files part : Bundle)
    → All (λ n. str_eq n m ≡ false) (keys part)
    → FoundIn files part
    → FoundIn ((m, x) ∷ files) part
unfolding find
FoundIn-cons m x files [] h f = tt
FoundIn-cons m x files ((n, y) ∷ part) h f = (rw h.0 f.0, FoundIn-cons m x files part h.1 f.1)

find_head : (n : String) (x : List ℕ) (files : Bundle) → find n ((n, x) ∷ files) ≡ some x
unfolding find
find_head n x files = rw ((eq_iff n n).1 refl)

pub FoundIn-self : (files : Bundle) → NodupNames (keys files) → FoundIn files files
FoundIn-self [] u = tt
FoundIn-self ((n, x) ∷ files) u =
    (find_head n x files, FoundIn-cons n x files files u.0 (FoundIn-self files u.1))

module _ (open_at : String → Result Opened) (files : Bundle) where
  IsCaptured-copy :
      (name : String) (bytes : List ℕ)
      → find name files ≡ some bytes
      → IsCaptured open_at name bytes
      → IsCaptured (folder_of files).open_at name bytes
  unfolding folder_of
  IsCaptured-copy name bytes found (named, _, fits, text) = (
    named,
    (
      record { regular = true; st_size = length bytes; contents = bytes },
      rw (found, folder_of),
      refl,
      fits,
      refl,
    ),
    fits,
    text,
  )

  AllCaptured-copy :
      (part : Bundle)
      → FoundIn files part
      → AllCaptured open_at part
      → AllCaptured (folder_of files).open_at part
  AllCaptured-copy [] f h = tt
  AllCaptured-copy ((name, bytes) ∷ part) f h =
      (IsCaptured-copy name bytes f.0 h.0, AllCaptured-copy part f.1 h.1)

IsSubmission-copy :
    (folder : Folder) (bundle : Bundle)
    → NodupNames (keys bundle)
    → IsSubmission folder bundle
    → IsSubmission (folder_of bundle) bundle
unfolding folder_of
IsSubmission-copy folder bundle u (few, same, complete, all, fits) = (
  omega (arith, ap length same ∙ length-sort name_le folder.names),
  sym (
      sort_of_sorted name_le (keys bundle)
        (rw same (sort-IsSorted name_le name_le_total name_le_trans folder.names))),
  complete,
  AllCaptured-copy folder.open_at bundle bundle (FoundIn-self bundle u) all,
  fits,
)

pub Absent-nil : (names : List String) → All (Absent []) names
unfolding find
Absent-nil [] = tt
Absent-nil (n ∷ ns) = (refl, Absent-nil ns)

materialize_fresh :
    (bundle : Bundle) → NodupNames (keys bundle) → materialize false bundle ≡ ok bundle
unfolding materialize
materialize_fresh bundle u = write_all_fresh bundle [] u (Absent-nil (keys bundle))

-- A captured bundle with distinct names is written to a new directory without an error, the
-- directory holds it whole, and its capture is the bundle again: what is compiled and what is
-- checked afterwards is what was captured.
pub capture-materialize :
    (root : Result Folder) (bundle : Bundle)
    → capture root ≡ ok bundle
    → NodupNames (keys bundle)
    → (materialize false bundle ≡ ok bundle) × (capture (ok (folder_of bundle)) ≡ ok bundle)
capture-materialize root bundle h u =
    let (folder, _, s) = (capture_iff root bundle).0 h in
    (
      materialize_fresh bundle u,
      (capture_iff (ok (folder_of bundle)) bundle).1
          (folder_of bundle, refl, IsSubmission-copy folder bundle u s),
    )

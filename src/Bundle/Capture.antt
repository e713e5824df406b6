-- ===== src/Bundle/Capture.antt =====
-- What the body of the loop of `capture` accepts: the contract of one file.
use leansphincs.Base.{
  ℕ, zero, suc, ◌+◌, ◌≤◌, ◌<◌, ◌≡◌, refl, sym, ap, ◌∙◌, String, Bool, true, false, not, ◌&&◌, ◌||◌,
  List, [], ◌∷◌, codes, arith, ltb, ltb-false_of_le, length, Bool-cases, inl, inr, Result, ok,
  bind-eq-ok, raise_if_then, then-eq-ok, ok-injective,
}
use leansphincs.Base.Value.{str_mem}
use leansphincs.Base.Utf8.{utf8_from, start}
use leansphincs.Bundle.Names.{is_module_name, ends_with_lean}
use leansphincs.Bundle.{
  required, max_file, max_total, Opened, read, has_nul, check_text, read_checked, capture_file,
}

pub read_all : (n : ℕ) (bytes : List ℕ) → length (read n bytes) < n → read n bytes ≡ bytes
unfolding read
read_all n [] h = refl
read_all zero (b ∷ bytes) h = absurd (omega arith)
read_all (suc n) (b ∷ bytes) h = ap (◌∷◌ b) (read_all n bytes (omega arith))

pub read_short : (n : ℕ) (bytes : List ℕ) → length bytes < n → read n bytes ≡ bytes
unfolding read
read_short n [] h = refl
read_short zero (b ∷ bytes) h = absurd (omega arith)
read_short (suc n) (b ∷ bytes) h = ap (◌∷◌ b) (read_short n bytes (omega arith))

-- A Lean file is UTF-8 without a NUL. The other files may hold any bytes.
abbrev pub IsText : String → List ℕ → Type 0
IsText name bytes =
    ends_with_lean (codes name) ≡ true → (utf8_from start bytes ≡ true) × (has_nul bytes ≡ false)

abbrev pub admitted : String → Bool
admitted name = str_mem name required || is_module_name (codes name)

-- The name is admitted, and `bytes` is all that a small regular file of that name holds.
abbrev pub IsCaptured : (String → Result Opened) → String → List ℕ → Type 0
IsCaptured open_at name bytes =
    (admitted name ≡ true)
    × ((info : Opened) × (open_at name ≡ ok info)
        × (info.regular ≡ true)
        × (info.st_size ≤ max_file)
        × (info.contents ≡ bytes))
    × (length bytes ≤ max_file)
    × IsText name bytes

name_passes :
    (name : String)
    → admitted name ≡ true
    → (not (str_mem name required) && not (is_module_name (codes name))) ≡ false
name_passes name h = ground arith

check_text_inv :
    (name : String) (bytes : List ℕ) → check_text name bytes ≡ ok tt → IsText name bytes
unfolding check_text
check_text_inv name bytes h lean = ground arith

check_text_of : (name : String) (bytes : List ℕ) → IsText name bytes → check_text name bytes ≡ ok tt
unfolding check_text
check_text_of name bytes t = elim (Bool-cases (ends_with_lean (codes name))) [
  | inl e ↦ let (u, z) = t e in rw (e, u, z)
  | inr e ↦ rw e
]

-- What the checks behind the open say of the file and of the bytes that they pass on.
abbrev IsSmall : ℕ → String → Opened → List ℕ → Type 0
IsSmall total name info bytes =
    (info.regular ≡ true)
    × (info.st_size ≤ max_file)
    × (info.contents ≡ bytes)
    × (length bytes ≤ max_file)
    × IsText name bytes
    × (total + length bytes ≤ max_total)

read_checked_inv :
    (total : ℕ) (name : String) (info : Opened) (bytes : List ℕ)
    → read_checked total name info ≡ ok bytes
    → IsSmall total name info bytes
unfolding read_checked
read_checked_inv total name info bytes h =
    let got = read (max_file + 1) info.contents in
    let (regular, h₁) = raise_if_then (not info.regular) _ _ h in
    let (small, h₂) = raise_if_then (ltb max_file info.st_size) _ _ h₁ in
    let (fits, h₃) = raise_if_then (ltb max_file (length got)) _ _ h₂ in
    let (room, h₄) = raise_if_then (ltb max_total (total + length got)) _ _ h₃ in
    let (text, h₅) = then-eq-ok (check_text name got) (ok got) h₄ in
    let same = ok-injective got bytes h₅ in
    let whole = read_all (max_file + 1) info.contents (ground arith) in
    rw (← same) (
      ground arith,
      ground arith,
      sym whole,
      ground arith,
      check_text_inv name got text,
      ground arith,
    )

read_checked_of :
    (total : ℕ) (name : String) (info : Opened) (bytes : List ℕ)
    → IsSmall total name info bytes
    → read_checked total name info ≡ ok bytes
unfolding read_checked
read_checked_of total name info bytes (regular, small, whole, fits, text, room) =
    let got = read_short (max_file + 1) info.contents (rw whole (omega arith)) ∙ whole in
    rw (
      regular,
      ltb-false_of_le info.st_size max_file small,
      got,
      ltb-false_of_le (length bytes) max_file fits,
      ltb-false_of_le (total + length bytes) max_total room,
      check_text_of name bytes text,
    )

module _ (open_at : String → Result Opened) where
  pub capture_file_inv :
      (total : ℕ) (name : String) (bytes : List ℕ)
      → capture_file open_at total name ≡ ok bytes
      → IsCaptured open_at name bytes × (total + length bytes ≤ max_total)
  unfolding capture_file
  capture_file_inv total name bytes h =
      let (named, h₁) =
        raise_if_then (not (str_mem name required) && not (is_module_name (codes name))) _ _ h in
      let (info, opened, h₂) = bind-eq-ok (open_at name) (read_checked total name) h₁ in
      let (regular, small, whole, fits, text, room) = read_checked_inv total name info bytes h₂ in
      ((ground arith, (info, opened, regular, small, whole), fits, text), room)

  pub capture_file_of :
      (total : ℕ) (name : String) (bytes : List ℕ)
      → IsCaptured open_at name bytes
      → total + length bytes ≤ max_total
      → capture_file open_at total name ≡ ok bytes
  unfolding capture_file
  capture_file_of total name bytes (named, (info, opened, regular, small, whole), fits, text) room =
      rw (name_passes name named, opened)
        (read_checked_of total name info bytes (regular, small, whole, fits, text, room))

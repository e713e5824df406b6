-- ===== src/Contract/Scalar/Canonical.antt =====
-- Which files `scalar` accepts, and what it returns for them.
use leansphincs.Base.{
  ℕ, ◌+◌, ◌-◌, ◌*◌, ◌≤◌, ◌<◌, ◌≡◌, ◌≢◌, refl, sym, ◌∙◌, ◌↔◌, ◌⊎◌, inl, inr, true, List, [], ◌∷◌,
  ◌++◌, String, arith, ◌==◌, length, length-append, Bool-cases, ok, All,
}
use leansphincs.Base.Decimal.{
  value, decimal, IsCanonical, IsDigit, decimal-IsCanonical, value-decimal, decimal-value_canonical,
  length-decimal,
}
use leansphincs.Contract.Scalar.{max_component, digits_tail, is_scalar, int_of, scalar}

-- A text that the pattern admits is a numeral, with or without a newline behind it.
data Shape : List ℕ → Type 0 where
  bare : (ds : List ℕ) → All IsDigit ds → Shape ds
  newline : (ds : List ℕ) → All IsDigit ds → Shape (ds ++ (10 ∷ []))

cons-Shape : (c : ℕ) {cs : List ℕ} → IsDigit c → Shape cs → Shape (c ∷ cs)
cons-Shape c h (bare ds k) = bare (c ∷ ds) (h, k)
cons-Shape c h (newline ds k) = newline (c ∷ ds) (h, k)

digits_tail-Shape : (cs : List ℕ) → digits_tail cs ≡ true → Shape cs
unfolding digits_tail
digits_tail-Shape [] h = bare [] tt
digits_tail-Shape (c ∷ []) h = elim (Bool-cases (c == 10)) [
  | inl e ↦ let e' : c ≡ 10 = ground arith in rw e' (newline [] tt)
  | inr e ↦ bare (c ∷ []) (ground arith, tt)
]
digits_tail-Shape (c ∷ d ∷ cs) h =
    cons-Shape c (ground arith) (digits_tail-Shape (d ∷ cs) (ground arith))

digits_tail-digits : (ds : List ℕ) → All IsDigit ds → digits_tail ds ≡ true
unfolding digits_tail
digits_tail-digits [] h = refl
digits_tail-digits (c ∷ []) h = ground arith
digits_tail-digits (c ∷ d ∷ ds) h = ground (arith, digits_tail-digits (d ∷ ds) h.1)

digits_tail-newline : (ds : List ℕ) → All IsDigit ds → digits_tail (ds ++ (10 ∷ [])) ≡ true
unfolding digits_tail
digits_tail-newline [] h = refl
digits_tail-newline (c ∷ []) h = ground arith
digits_tail-newline (c ∷ d ∷ ds) h = ground (arith, digits_tail-newline (d ∷ ds) h.1)

int_of-digits : (acc : ℕ) (ds : List ℕ) → All IsDigit ds → int_of acc ds ≡ value acc ds
unfolding int_of value
int_of-digits acc [] h = refl
int_of-digits acc (c ∷ ds) h = ground (arith, int_of-digits (acc * 10 + (c - 48)) ds h.1)

int_of-newline :
    (acc : ℕ) (ds : List ℕ) → All IsDigit ds → int_of acc (ds ++ (10 ∷ [])) ≡ value acc ds
unfolding int_of value
int_of-newline acc [] h = refl
int_of-newline acc (c ∷ ds) h = ground (arith, int_of-newline (acc * 10 + (c - 48)) ds h.1)

-- The file holds the decimal numeral of `n`, with or without a newline behind it.
abbrev pub IsNumeral : ℕ → List ℕ → Type 0
IsNumeral n bytes = (bytes ≡ decimal n) ⊎ (bytes ≡ decimal n ++ (10 ∷ []))

IsCanonical-head : (c : ℕ) (ds : List ℕ) → 49 ≤ c → c ≤ 57 → All IsDigit ds → IsCanonical (c ∷ ds)
IsCanonical-head c ds h k d = (h, k, d)

-- What the pattern admits is the numeral of the positive number that `int` reads.
is_scalar-IsNumeral :
    (c : ℕ) {cs : List ℕ}
    → 49 ≤ c
    → c ≤ 57
    → Shape cs
    → IsNumeral (int_of 0 (c ∷ cs)) (c ∷ cs) × (0 < int_of 0 (c ∷ cs))
is_scalar-IsNumeral c h k (bare ds d) =
    let (e, p) = decimal-value_canonical (c ∷ ds) (h, k, d) in
    rw (int_of-digits 0 (c ∷ ds) (omega arith, d)) (inl (sym e), p)
is_scalar-IsNumeral c h k (newline ds d) =
    let (e, p) = decimal-value_canonical (c ∷ ds) (h, k, d) in
    rw (int_of-newline 0 (c ∷ ds) (omega arith, d)) (inr (rw e), p)

-- What a successful call has tested.
scalar_inv :
    (name : String) (c : ℕ) (cs : List ℕ) (n : ℕ)
    → scalar name (c ∷ cs) ≡ ok n
    → (49 ≤ c) × (c ≤ 57) × (digits_tail cs ≡ true) × (int_of 0 (c ∷ cs) ≡ n) × (n ≤ max_component)
unfolding scalar
scalar_inv name c cs n h = ground arith

scalar_nil : (name : String) (n : ℕ) → scalar name [] ≢ ok n
unfolding scalar
scalar_nil name n h = cc

scalar_sound :
    (name : String) (bytes : List ℕ) (n : ℕ)
    → scalar name bytes ≡ ok n
    → (1 ≤ n) × (n ≤ max_component) × IsNumeral n bytes
scalar_sound name [] n h = absurd (scalar_nil name n h)
scalar_sound name (c ∷ cs) n h =
    let (lo, hi, t, e, m) = scalar_inv name c cs n h in
    let (s, p) = is_scalar-IsNumeral c lo hi (digits_tail-Shape cs t) in rw (← e) (p, rw e m, s)

-- A canonical numeral passes the pattern, and is read back.
canonical_scalar :
    (ds : List ℕ)
    → IsCanonical ds
    → (is_scalar ds ≡ true)
      × (is_scalar (ds ++ (10 ∷ [])) ≡ true)
      × (int_of 0 ds ≡ value 0 ds)
      × (int_of 0 (ds ++ (10 ∷ [])) ≡ value 0 ds)
unfolding is_scalar
canonical_scalar [] h = absurd h
canonical_scalar (c ∷ ds) h =
    let all : All IsDigit (c ∷ ds) = (omega arith, h.2) in
    (
      ground (arith, digits_tail-digits ds h.2),
      ground (arith, digits_tail-newline ds h.2),
      int_of-digits 0 (c ∷ ds) all,
      int_of-newline 0 (c ∷ ds) all,
    )

scalar_of :
    (name : String) (bytes : List ℕ) (n : ℕ)
    → length bytes ≤ 32
    → is_scalar bytes ≡ true
    → int_of 0 bytes ≡ n
    → n ≤ max_component
    → scalar name bytes ≡ ok n
unfolding scalar
scalar_of name bytes n l s e m = ground arith

scalar_complete :
    (name : String) (bytes : List ℕ) (n : ℕ)
    → 1 ≤ n
    → n ≤ max_component
    → IsNumeral n bytes
    → scalar name bytes ≡ ok n
scalar_complete name bytes n p q h =
    let (plain, ended, read, read') = canonical_scalar (decimal n) (decimal-IsCanonical n p) in
    let short = length-decimal 18 n (omega arith) in
    elim h [
      | inl e ↦ rw e (scalar_of name (decimal n) n (omega arith) plain (read ∙ value-decimal n) q)
      | inr e ↦ rw e (
          scalar_of name (decimal n ++ (10 ∷ [])) n
            (omega (arith, length-append {0} (decimal n) (10 ∷ []))) ended (read' ∙ value-decimal n)
            q)
    ]

-- `scalar` returns `n` exactly for the files that hold the decimal numeral of `n`, with or without
-- a newline, for `n` from 1 to 2 ^ 63 - 1: no sign, leading zero, blank or second numeral passes,
-- and no such file is refused.
pub scalar_iff :
    (name : String) (bytes : List ℕ) (n : ℕ)
    → (scalar name bytes ≡ ok n) ↔ ((1 ≤ n) × (n ≤ max_component) × IsNumeral n bytes)
scalar_iff name bytes n = (scalar_sound name bytes n, λ h. scalar_complete name bytes n h.0 h.1 h.2)

-- ===== src/Contract/Scalar.antt =====
-- `scalar` of scripts/benchmark_contract.py, on the bytes that `path.read_bytes()` returned.
pub mod Canonical
use native.Mathlib.Numerals.{towards_suc}
use leansphincs.Base.{
  ℕ, zero, suc, ◌+◌, ◌-◌, ◌*◌, ◌^◌, ◌≤◌, ◌<◌, ◌≡◌, refl, sym, ap, ◌∙◌, ◌↔◌, ◌⊎◌, inl, inr, Bool,
  true, false, not, ◌&&◌, ◌||◌, List, [], ◌∷◌, ◌++◌, append-nil, String, ◌<>◌, arith, ltb, ltb→lt,
  leb, ◌==◌, if◌then◌else◌, length, length-append, Bool-cases, Result, ok, err, value_error, ◌>>=◌,
  ◌>>◌, raise_if, All,
}
use leansphincs.Base.Decimal.{
  is_digit, value, decimal, IsCanonical, IsDigit, decimal-IsCanonical, decimal-IsDigit,
  value-decimal, decimal-value_canonical, length-decimal,
}

-- `MAX_COMPONENT`
abbrev pub max_component : ℕ
max_component = 2 ^ 63 - 1

-- `[0-9]*\n?`
digits_tail : List ℕ → Bool
digits_tail [] = true
digits_tail (c ∷ []) = is_digit c || c == 10
digits_tail (c ∷ d ∷ cs) = is_digit c && digits_tail (d ∷ cs)

-- `re.fullmatch(rb"[1-9][0-9]*\n?", data)`
is_scalar : List ℕ → Bool
unfolding digits_tail
is_scalar [] = false
is_scalar (c ∷ cs) = leb b'1' c && leb c b'9' && digits_tail cs

-- `int(data)` on what the pattern admits: white space at the end is skipped.
int_of : ℕ → List ℕ → ℕ
int_of acc [] = acc
int_of acc (c ∷ cs) = int_of (if c == 10 then acc else acc * 10 + (c - 48)) cs

-- `name` is `path.name`.
unfoldable pub scalar : String → List ℕ → Result ℕ
unfolding is_scalar int_of
scalar name bytes = do
  raise_if (ltb 32 (length bytes) || not (is_scalar bytes))
      (value_error (name <> ": expected one positive canonical ASCII integer"))
  let n = int_of 0 bytes
  raise_if (ltb max_component n) (value_error (name <> ": value exceeds 9223372036854775807"))
  ok n

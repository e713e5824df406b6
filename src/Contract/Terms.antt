-- ===== src/Contract/Terms.antt =====
-- `parse_bound` of scripts/benchmark_contract.py, on the bytes that `path.read_bytes()` returned.
pub mod Data
pub mod Spec
pub mod Checks
pub mod Acceptance
use leansphincs.Base.{
  ℕ, suc, ◌+◌, ◌*◌, ◌/◌, ◌≤◌, ◌<◌, Bool, true, false, not, ◌&&◌, ◌||◌, max, Option, none, some,
  List, [], ◌∷◌, arith, ltb, leb, ◌==◌, if◌then◌else◌, length, Result, ok, err, value_error,
  recursion_error, ◌>>=◌, ◌>>◌, raise_if,
}
use leansphincs.Base.Int.{pos, negsuc}
use leansphincs.Base.Gcd.{gcd}
use leansphincs.Base.Value.{Value, null, bool, int, float, str, arr, obj, Items, nil, cons, items}
use Data.{Term, Monomial, monomial}
use leansphincs.Contract.Scalar.{max_component}

abbrev pub max_terms : ℕ
max_terms = 128

-- Python's `<=` on tuples.
abbrev pub monomial_le : Monomial → Monomial → Bool
monomial_le (a, b, d) (a', b', d') = ltb a a' || (a == a' && (ltb b b' || (b == b' && leb d d')))

-- `x`, unless `type(x) is not int or not 0 <= x <= MAX_COMPONENT`.
component : Value → Result ℕ
component (int (pos n)) =
    if leb n max_component
    then ok n
    else err (value_error "bound components must be bounded non-negative integers")
component _ = err (value_error "bound components must be bounded non-negative integers")

-- The test of `len(term)`, that of the components, and the unpacking of the five.
components : Items → Result Term
unfolding component
components (cons v₁ (cons v₂ (cons v₃ (cons v₄ (cons v₅ nil))))) = do
  num ← component v₁
  den ← component v₂
  work ← component v₃
  sign ← component v₄
  shift ← component v₅
  ok (record { num = num; den = den; work = work; sign = sign; shift = shift })
components _ = err (value_error "each bound term must have five integer components")

-- `Fraction(num, den).denominator`
abbrev pub reduced_den : ℕ → ℕ → ℕ
reduced_den num den = den / gcd num den

-- `previous is not None and key <= previous`
abbrev pub out_of_order : Option Monomial → Monomial → Bool
out_of_order none key = false
out_of_order (some previous) key = monomial_le key previous

-- The tests that follow the unpacking.
check_unpacked : Option Monomial → Term → Result Term
check_unpacked previous t = do
  raise_if (t.num == 0 || t.den == 0 || not (reduced_den t.num t.den == t.den))
      (value_error "coefficients must be positive reduced fractions")
  raise_if (ltb 1024 (max t.work (max t.sign t.shift))) (value_error "bound exponents exceed 1024")
  raise_if (out_of_order previous (monomial t))
      (value_error "monomials must be unique and sorted by (a,b,d)")
  ok t

-- One round of the loop.
pub check_term : Option Monomial → Value → Result Term
unfolding components check_unpacked
check_term previous (arr vs) = do t ← components vs; check_unpacked previous t
check_term previous _ = err (value_error "each bound term must have five integer components")

-- `for term in terms`
check_terms : Option Monomial → Items → Result (List Term)
unfolding check_term
check_terms previous nil = ok []
check_terms previous (cons v vs) = do
  t ← check_term previous v
  ts ← check_terms (some (monomial t)) vs
  ok (t ∷ ts)

abbrev pub count : Items → ℕ
count nil = 0
count (cons v vs) = suc (count vs)

-- `except RecursionError`
rename_recursion : Result Value → Result Value
rename_recursion (err (recursion_error m)) =
    err (value_error "bound.txt nesting exceeds the parser limit")
rename_recursion r = r

-- `type(terms) is not list or not 1 <= len(terms) <= MAX_TERMS`
term_items : Value → Result Items
term_items (arr vs) =
    if leb 1 (count vs) && leb (count vs) max_terms
    then ok vs
    else err (value_error "bound.txt must contain 1..128 terms")
term_items _ = err (value_error "bound.txt must contain 1..128 terms")

-- `loads` is `json.loads`: it raises a `ValueError` or a `RecursionError`, or gives a value.
unfoldable pub parse_bound : (List ℕ → Result Value) → List ℕ → Result (List Term)
unfolding rename_recursion term_items check_terms
parse_bound loads bytes = do
  raise_if (ltb 65536 (length bytes)) (value_error "bound.txt exceeds 64 KiB")
  value ← rename_recursion (loads bytes)
  vs ← term_items value
  check_terms none vs

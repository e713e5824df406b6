-- ===== src/Ots/Poly.antt =====
-- `multiply` and `power` of scripts/ots_experiments.py: generating functions with two exponents,
-- held as Python dicts from (cost, values) to a count.
pub mod Coefficients
pub mod Ways
use leansphincs.Base.{ℕ, zero, suc, ◌+◌, ◌*◌, Bool, ◌&&◌, List, [], ◌∷◌, leb, ◌==◌, if◌then◌else◌}

-- (cost, values)
abbrev pub Key : Type 0
Key = ℕ × ℕ

-- A dict in insertion order.
abbrev pub Poly : Type 0
Poly = List (Key × ℕ)

abbrev pub key_eq : Key → Key → Bool
key_eq a b = (a.0 == b.0) && (a.1 == b.1)

-- `poly.get(k, 0)`
unfoldable pub get : Key → Poly → ℕ
get k [] = 0
get k ((j, n) ∷ p) = if key_eq k j then n else get k p

-- `result[k] += n` on a `defaultdict(int)`
unfoldable pub add_at : Key → ℕ → Poly → Poly
add_at k n [] = (k, n) ∷ []
add_at k n ((j, m) ∷ p) = if key_eq k j then (j, m + n) ∷ p else (j, m) ∷ add_at k n p

-- `c + d <= max_cost and f + g <= max_values`
abbrev pub within : ℕ → ℕ → Key → Bool
within max_cost max_values k = leb k.0 max_cost && leb k.1 max_values

module _ (max_cost max_values : ℕ) where
  -- The inner loop of `multiply`, over `right.items()`.
  unfoldable pub multiply_row : Key → ℕ → Poly → Poly → Poly
  multiply_row k count [] result = result
  multiply_row k count ((j, other) ∷ right) result =
      let sum_key : Key = (k.0 + j.0, k.1 + j.1) in
      multiply_row k count right (
        if within max_cost max_values sum_key
        then add_at sum_key (count * other) result
        else result)

  -- The outer loop, over `left.items()`.
  unfoldable pub multiply_loop : Poly → Poly → Poly → Poly
  multiply_loop [] right result = result
  multiply_loop ((k, count) ∷ left) right result =
      multiply_loop left right (multiply_row k count right result)

  unfoldable pub multiply : Poly → Poly → Poly
  unfolding multiply_loop multiply_row add_at
  multiply left right = multiply_loop left right []

  -- The loop of `power`, by the rounds that are left.
  unfoldable pub power_loop : ℕ → Poly → Poly → Poly
  power_loop zero poly result = result
  power_loop (suc n) poly result = power_loop n poly (multiply result poly)

  unfoldable pub power : Poly → ℕ → Poly
  unfolding power_loop multiply
  power poly exponent = power_loop exponent poly (((0, 0), 1) ∷ [])

-- ===== src/Ots/Rows.antt =====
-- `shared_rows` of scripts/ots_experiments.py: the choices in a component whose rows share seeds.
use text.Mathlib.Text.{◌==◌ as str_eq}
use leansphincs.Base.{
  ℕ, zero, suc, ◌+◌, ◌-◌, ◌*◌, ◌/◌, ◌^◌, ◌<◌, ◌≡◌, refl, ap, ◌∙◌, String, Bool-cases, inl, inr, [],
  ◌∷◌, arith, if◌then◌else◌, Result, ok, ◌>>=◌, bind-eq-ok, ok-injective,
}
use leansphincs.Ots.Poly.{Key, Poly, key_eq, add_at}
use leansphincs.Ots.Cost.{hash_cost}

-- `math.comb`
unfoldable pub comb : ℕ → ℕ → ℕ
comb n zero = 1
comb zero (suc k) = 0
comb (suc n) (suc k) = comb n k + comb n (suc k)

module _ (rows merge expansion : ℕ) where
  -- `for seeds in range(4)`, by the rounds that are left.
  unfoldable pub seeds_loop : ℕ → ℕ → ℕ → Poly → Poly
  seeds_loop zero seeds chosen result = result
  seeds_loop (suc n) seeds chosen result =
      let k : Key =
        (chosen * merge + seeds * expansion, rows - chosen + seeds + chosen * (4 - seeds)) in
      seeds_loop n (suc seeds) chosen (add_at k (comb rows chosen * comb 4 seeds) result)

  -- `for chosen in range(1, rows + 1)`
  unfoldable pub chosen_loop : ℕ → ℕ → Poly → Poly
  chosen_loop zero chosen result = result
  chosen_loop (suc n) chosen result = chosen_loop n (suc chosen) (seeds_loop 4 0 chosen result)

  -- The two keys differ, since a component has rows and they cost.
  unfoldable pub rows_poly : Poly
  rows_poly = chosen_loop rows 1 (((0, rows), 1) ∷ ((rows * merge + 4 * expansion, 4), 1) ∷ [])

unfoldable pub shared_rows : ℕ → String → Result Poly
shared_rows rows profile = do
  merge ← hash_cost 4 profile
  ok (rows_poly rows merge (if str_eq profile "paper" then 1 else (rows + 1) / 2))

-- How many choices a polynomial counts in all.
abbrev pub total : Poly → ℕ
total [] = 0
total ((k, n) ∷ p) = n + total p

total-add_at : (k : Key) (n : ℕ) (p : Poly) → total (add_at k n p) ≡ total p + n
unfolding add_at
total-add_at k n [] = omega arith
total-add_at k n ((j, m) ∷ p) = elim (Bool-cases (key_eq k j)) [
  | inl e ↦ rw e (omega arith)
  | inr e ↦ rw e (omega (arith, total-add_at k n p))
]

-- The sum of a row of Pascal's triangle, up to `m`.
row_sum : ℕ → ℕ → ℕ
row_sum n zero = 1
row_sum n (suc m) = row_sum n m + comb n (suc m)

row_sum_pascal : (n m : ℕ) → row_sum (suc n) (suc m) ≡ row_sum n m + row_sum n (suc m)
unfolding row_sum comb
row_sum_pascal n zero = omega arith
row_sum_pascal n (suc m) = omega (arith, row_sum_pascal n m)

comb_beyond : (n k : ℕ) → n < k → comb n k ≡ 0
unfolding comb
comb_beyond n zero h = absurd (omega arith)
comb_beyond zero (suc k) h = refl
comb_beyond (suc n) (suc k) h =
    omega (arith, comb_beyond n k (omega arith), comb_beyond n (suc k) (omega arith))

row_sum_full : (n : ℕ) → row_sum n n ≡ 2 ^ n
row_sum_full zero = unfold row_sum in refl
row_sum_full (suc n) =
    let beyond : row_sum n (suc n) ≡ row_sum n n =
      unfold row_sum in omega (arith, comb_beyond n (suc n) (omega arith)) in
    omega (arith, row_sum_pascal n n, row_sum_full n)

four_one : comb 4 1 ≡ 4
unfolding comb
four_one = refl

four_two : comb 4 2 ≡ 6
unfolding comb
four_two = refl

four_three : comb 4 3 ≡ 4
unfolding comb
four_three = refl

four_zero : comb 4 0 ≡ 1
unfolding comb
four_zero = refl

row_sum_step : (n m : ℕ) → row_sum n (suc m) ≡ row_sum n m + comb n (suc m)
unfolding row_sum
row_sum_step n m = refl

module _ (rows merge expansion : ℕ) where
  total-seeds_loop :
      (chosen : ℕ) (p : Poly)
      → total (seeds_loop rows merge expansion 4 0 chosen p) ≡ total p + 15 * comb rows chosen
  unfolding seeds_loop
  total-seeds_loop chosen p =
      rw
        (
          total-add_at, total-add_at, total-add_at, total-add_at, four_three, four_two, four_one,
          four_zero,
        )
        (omega arith)

  total-chosen_loop :
      (n chosen : ℕ) (p : Poly)
      → total (chosen_loop rows merge expansion n (suc chosen) p) + 15 * row_sum rows chosen
        ≡ total p + 15 * row_sum rows (chosen + n)
  unfolding chosen_loop
  total-chosen_loop zero chosen p = ap (λ k. total p + 15 * row_sum rows k) (omega arith)
  total-chosen_loop (suc n) chosen p =
      let after = seeds_loop rows merge expansion 4 0 (suc chosen) p in
      let end : row_sum rows (suc chosen + n) ≡ row_sum rows (chosen + suc n) =
        ap (row_sum rows) (omega arith) in
      omega (
        arith,
        total-chosen_loop n (suc chosen) after,
        total-seeds_loop (suc chosen) p,
        row_sum_step rows chosen,
        end,
      )

row_sum_start : (n : ℕ) → row_sum n 0 ≡ 1
unfolding row_sum
row_sum_start n = refl

-- A component of `rows` rows has `2 + 15 * (2 ^ rows - 1)` choices in all, whatever a hash costs.
pub total-shared_rows :
    (rows : ℕ) (profile : String) (p : Poly)
    → shared_rows rows profile ≡ ok p
    → total p + 15 ≡ 2 + 15 * 2 ^ rows
unfolding shared_rows rows_poly
total-shared_rows rows profile p h =
    let (merge, cost, h₁) = bind-eq-ok (hash_cost 4 profile) _ h in
    let expansion = if str_eq profile "paper" then 1 else (rows + 1) / 2 in
    let literal = ((0, rows), 1) ∷ ((rows * merge + 4 * expansion, 4), 1) ∷ [] in
    let counted = total-chosen_loop rows merge expansion rows 0 literal in
    let all : row_sum rows (0 + rows) ≡ 2 ^ rows =
      ap (row_sum rows) (omega arith) ∙ row_sum_full rows in
    let same = ap total (ok-injective (chosen_loop rows merge expansion rows 1 literal) p h₁) in
    omega (arith, counted, all, same, row_sum_start rows)

-- ===== src/Ots/Poly/Ways.antt =====
-- `power` counts the sequences of choices: the specification of what the OTS experiments count.
use leansphincs.Base.{
  ℕ, zero, suc, ◌+◌, ◌-◌, ◌*◌, ◌≡◌, refl, ◌∙◌, true, false, [], ◌∷◌, arith, if◌then◌else◌,
}
use leansphincs.Ots.Poly.{
  Key, Poly, key_eq, get, add_at, within, multiply_row, multiply_loop, multiply, power_loop, power,
}
use leansphincs.Ots.Poly.Coefficients.{
  NodupKeys, IsFresh, coeff, get-eq-coeff, coeff-multiply, product-eq-sum_choices, sum_choices,
}

-- In how many ways `n` choices out of `poly` have the exponents `k` in total.
unfoldable pub ways : Poly → ℕ → Key → ℕ
ways poly zero k = if key_eq k (0, 0) then 1 else 0
ways poly (suc n) k = sum_choices (ways poly n) k poly

-- Every key of `multiply` is listed once.
add_at-IsFresh :
    (k j : Key) (n : ℕ) (p : Poly) → key_eq k j ≡ false → IsFresh k p → IsFresh k (add_at j n p)
unfolding add_at
add_at-IsFresh k j n [] e h = (e, tt)
add_at-IsFresh k j n ((i, m) ∷ p) e h = ground (arith, add_at-IsFresh k j n p e h.1)

add_at-NodupKeys : (j : Key) (n : ℕ) (p : Poly) → NodupKeys p → NodupKeys (add_at j n p)
unfolding add_at
add_at-NodupKeys j n [] u = (tt, tt)
add_at-NodupKeys j n ((i, m) ∷ p) u =
    ground
      (arith, add_at-NodupKeys j n p u.1, λ (e : key_eq i j ≡ false). add_at-IsFresh i j n p e u.0)

module _ (mc mv : ℕ) where
  multiply_row-NodupKeys :
      (k : Key) (count : ℕ) (right result : Poly)
      → NodupKeys result
      → NodupKeys (multiply_row mc mv k count right result)
  unfolding multiply_row
  multiply_row-NodupKeys k count [] result u = u
  multiply_row-NodupKeys k count ((j, other) ∷ right) result u =
      let s : Key = (k.0 + j.0, k.1 + j.1) in
      ground (
        arith,
        multiply_row-NodupKeys k count right result u,
        multiply_row-NodupKeys k count right (add_at s (count * other) result)
            (add_at-NodupKeys s (count * other) result u),
      )

  multiply_loop-NodupKeys :
      (left right result : Poly)
      → NodupKeys result
      → NodupKeys (multiply_loop mc mv left right result)
  unfolding multiply_loop
  multiply_loop-NodupKeys [] right result u = u
  multiply_loop-NodupKeys ((k, count) ∷ left) right result u =
      multiply_loop-NodupKeys left right _ (multiply_row-NodupKeys k count right result u)

  pub multiply-NodupKeys : (left right : Poly) → NodupKeys (multiply mc mv left right)
  unfolding multiply
  multiply-NodupKeys left right = multiply_loop-NodupKeys left right [] tt

  power_loop-NodupKeys :
      (n : ℕ) (poly result : Poly) → NodupKeys result → NodupKeys (power_loop mc mv n poly result)
  unfolding power_loop
  power_loop-NodupKeys zero poly result u = u
  power_loop-NodupKeys (suc n) poly result u =
      power_loop-NodupKeys n poly _ (multiply-NodupKeys result poly)

  pub power-NodupKeys : (poly : Poly) (n : ℕ) → NodupKeys (power mc mv poly n)
  unfolding power
  power-NodupKeys poly n = power_loop-NodupKeys n poly _ (tt, tt)

  -- Two functions that agree within the bounds give the same sum at a key within the bounds.
  sum_choices_congr :
      (f g : Key → ℕ) (k : Key) (p : Poly)
      → within mc mv k ≡ true
      → ((j : Key) → within mc mv j ≡ true → f j ≡ g j)
      → sum_choices f k p ≡ sum_choices g k p
  sum_choices_congr f g k [] w h = refl
  sum_choices_congr f g k ((j, n) ∷ p) w h =
      ground (arith, h (k.0 - j.0, k.1 - j.1), sum_choices_congr f g k p w h)

  -- The coefficients of `result` count sequences of `m` choices.
  abbrev Counts : Poly → ℕ → Poly → Type 0
  Counts poly m result = (k : Key) → coeff k result ≡ (if within mc mv k then ways poly m k else 0)

  multiply-Counts :
      (poly : Poly) (m : ℕ) (result : Poly)
      → Counts poly m result
      → Counts poly (suc m) (multiply mc mv result poly)
  unfolding ways
  multiply-Counts poly m result h k = ground (
    arith,
    coeff-multiply mc mv k result poly,
    product-eq-sum_choices k result poly,
    λ (w : within mc mv k ≡ true).
        sum_choices_congr (λ j. coeff j result) (ways poly m) k poly w (λ j v. rw (h j) (rw v)),
  )

  power_loop-Counts :
      (n m t : ℕ) (poly result : Poly)
      → n + m ≡ t
      → Counts poly m result
      → Counts poly t (power_loop mc mv n poly result)
  unfolding power_loop
  power_loop-Counts zero m t poly result e h = let e' : t ≡ m = omega arith in rw e' h
  power_loop-Counts (suc n) m t poly result e h =
      power_loop-Counts n (suc m) t poly _ (omega arith) (multiply-Counts poly m result h)

  power-Counts : (poly : Poly) (n : ℕ) → Counts poly n (power mc mv poly n)
  unfolding power ways
  power-Counts poly n =
      power_loop-Counts n 0 n poly (((0, 0), 1) ∷ []) (omega arith) (λ k. ground arith)

  -- A bounded product has, at each key within the bounds, the coefficient of the whole product:
  -- the sum over the terms of the right factor of the matching left coefficient times the count.
  -- At a key beyond the bounds it has none.
  get-multiply :
      (k : Key) (left right : Poly)
      → NodupKeys left
      → get k (multiply mc mv left right)
        ≡ (if within mc mv k then sum_choices (λ j. get j left) k right else 0)
  get-multiply k left right u = ground (
    arith,
    get-eq-coeff k (multiply mc mv left right) (multiply-NodupKeys left right),
    coeff-multiply mc mv k left right,
    product-eq-sum_choices k left right,
    λ (w : within mc mv k ≡ true).
        sum_choices_congr (λ j. coeff j left) (λ j. get j left) k right w
          (λ j v. rw (get-eq-coeff j left u)),
  )

  -- `power` looks up, at each key within the bounds, the number of ways to make `exponent`
  -- choices out of `poly` with these total exponents, and 0 beyond the bounds: cutting the
  -- intermediate products loses nothing.
  pub get-power :
      (k : Key) (poly : Poly) (exponent : ℕ)
      → get k (power mc mv poly exponent) ≡ (if within mc mv k then ways poly exponent k else 0)
  get-power k poly n =
      get-eq-coeff k (power mc mv poly n) (power-NodupKeys poly n) ∙ power-Counts poly n k

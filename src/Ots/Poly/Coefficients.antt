-- ===== src/Ots/Poly/Coefficients.antt =====
-- The coefficients of `multiply` and `power` are those of the truncated product.
use leansphincs.Base.{
  ℕ, ◌+◌, ◌-◌, ◌*◌, ◌≡◌, refl, true, false, ◌&&◌, [], ◌∷◌, arith, leb, if◌then◌else◌,
}
use leansphincs.Ots.Poly.{
  Key, Poly, key_eq, get, add_at, within, multiply_row, multiply_loop, multiply,
}

-- No key is listed twice, as in every dict.
abbrev pub IsFresh : Key → Poly → Type 0
IsFresh k [] = Unit
IsFresh k ((j, _) ∷ p) = (key_eq k j ≡ false) × IsFresh k p

abbrev pub NodupKeys : Poly → Type 0
NodupKeys [] = Unit
NodupKeys ((k, _) ∷ p) = IsFresh k p × NodupKeys p

-- The coefficient of a term, read off all entries.
abbrev pub coeff : Key → Poly → ℕ
coeff k [] = 0
coeff k ((j, n) ∷ p) = (if key_eq k j then n else 0) + coeff k p

coeff_fresh : (k : Key) (p : Poly) → IsFresh k p → coeff k p ≡ 0
coeff_fresh k [] h = refl
coeff_fresh k ((j, n) ∷ p) h = ground (arith, coeff_fresh k p h.1)

IsFresh-key_eq : (k j : Key) (p : Poly) → key_eq k j ≡ true → IsFresh j p → IsFresh k p
IsFresh-key_eq k j [] e h = tt
IsFresh-key_eq k j ((i, n) ∷ p) e h = (ground arith, IsFresh-key_eq k j p e h.1)

pub get-eq-coeff : (k : Key) (p : Poly) → NodupKeys p → get k p ≡ coeff k p
unfolding get
get-eq-coeff k [] u = refl
get-eq-coeff k ((j, n) ∷ p) u = ground (
  arith,
  get-eq-coeff k p u.1,
  λ (e : key_eq k j ≡ true). coeff_fresh k p (IsFresh-key_eq k j p e u.0),
)

pub coeff-add_at :
    (k j : Key) (n : ℕ) (p : Poly)
    → coeff k (add_at j n p) ≡ (if key_eq k j then n else 0) + coeff k p
unfolding add_at
coeff-add_at k j n [] = refl
coeff-add_at k j n ((i, m) ∷ p) = ground (arith, coeff-add_at k j n p)

-- The part of the product that one term of the left factor contributes.
abbrev row : Key → Key → ℕ → Poly → ℕ
row k l count [] = 0
row k l count ((j, other) ∷ right) =
    (if key_eq k (l.0 + j.0, l.1 + j.1) then count * other else 0) + row k l count right

coeff-multiply_row :
    (max_cost max_values : ℕ) (k l : Key) (count : ℕ) (right result : Poly)
    → coeff k (multiply_row max_cost max_values l count right result)
      ≡ coeff k result + (if within max_cost max_values k then row k l count right else 0)
unfolding multiply_row
coeff-multiply_row mc mv k l count [] result = ground arith
coeff-multiply_row mc mv k l count ((j, other) ∷ right) result =
    let s : Key = (l.0 + j.0, l.1 + j.1) in
    ground (
      arith,
      coeff-multiply_row mc mv k l count right (add_at s (count * other) result),
      coeff-multiply_row mc mv k l count right result,
      coeff-add_at k s (count * other) result,
    )

-- The coefficient of the product of two polynomials, with no bound on the exponents.
abbrev pub product : Key → Poly → Poly → ℕ
product k [] right = 0
product k ((l, count) ∷ left) right = row k l count right + product k left right

coeff-multiply_loop :
    (max_cost max_values : ℕ) (k : Key) (left right result : Poly)
    → coeff k (multiply_loop max_cost max_values left right result)
      ≡ coeff k result + (if within max_cost max_values k then product k left right else 0)
unfolding multiply_loop
coeff-multiply_loop mc mv k [] right result = ground arith
coeff-multiply_loop mc mv k ((l, count) ∷ left) right result = ground (
  arith,
  coeff-multiply_loop mc mv k left right (multiply_row mc mv l count right result),
  coeff-multiply_row mc mv k l count right result,
)

pub coeff-multiply :
    (max_cost max_values : ℕ) (k : Key) (left right : Poly)
    → coeff k (multiply max_cost max_values left right)
      ≡ (if within max_cost max_values k then product k left right else 0)
unfolding multiply_loop
coeff-multiply mc mv k left right =
    unfold multiply in omega (arith, coeff-multiply_loop mc mv k left right [])

-- The sum over the choices in `p`, each with its multiplicity, of `f` at what is left of `k`.
abbrev pub sum_choices : (Key → ℕ) → Key → Poly → ℕ
sum_choices f k [] = 0
sum_choices f k ((j, n) ∷ p) =
    (if leb j.0 k.0 && leb j.1 k.1 then f (k.0 - j.0, k.1 - j.1) * n else 0) + sum_choices f k p

sum_choices-nil : (k : Key) (right : Poly) → sum_choices (λ j. coeff j []) k right ≡ 0
sum_choices-nil k [] = refl
sum_choices-nil k ((j, n) ∷ right) = ground (arith, sum_choices-nil k right)

row_term :
    (k l j : Key) (count other c : ℕ)
    → (if leb j.0 k.0 && leb j.1 k.1
        then ((if key_eq (k.0 - j.0, k.1 - j.1) l then count else 0) + c) * other
        else 0)
      ≡ (if key_eq k (l.0 + j.0, l.1 + j.1) then count * other else 0)
        + (if leb j.0 k.0 && leb j.1 k.1 then c * other else 0)
row_term k l j count other c = ground arith

sum_choices-cons :
    (k l : Key) (count : ℕ) (left right : Poly)
    → sum_choices (λ j. coeff j ((l, count) ∷ left)) k right
      ≡ row k l count right + sum_choices (λ j. coeff j left) k right
sum_choices-cons k l count left [] = omega arith
sum_choices-cons k l count left ((j, other) ∷ right) = omega (
  arith,
  row_term k l j count other (coeff (k.0 - j.0, k.1 - j.1) left),
  sum_choices-cons k l count left right,
)

pub product-eq-sum_choices :
    (k : Key) (left right : Poly) → product k left right ≡ sum_choices (λ j. coeff j left) k right
product-eq-sum_choices k [] right = omega (arith, sum_choices-nil k right)
product-eq-sum_choices k ((l, count) ∷ left) right =
    omega (arith, sum_choices-cons k l count left right, product-eq-sum_choices k left right)

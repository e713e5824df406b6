-- ===== src/Contract/Terms/Spec.antt =====
-- What a bound is, without the loop that checks it: the contract of bound.txt.
use leansphincs.Base.{ℕ, ◌≤◌, ◌<◌, ◌≡◌, ◌⊎◌, List, [], ◌∷◌, All}
use leansphincs.Base.Int.{pos}
use leansphincs.Base.Gcd.{Divides}
use leansphincs.Base.Value.{Value, int, arr, Items, nil, cons}
use leansphincs.Contract.Scalar.{max_component}
use leansphincs.Contract.Terms.Data.{Term, Monomial, monomial}

-- The lexicographic order of the monomials.
abbrev pub Lt : Monomial → Monomial → Type 0
Lt (a, b, d) (a', b', d') = (a < a') ⊎ ((a ≡ a') × ((b < b') ⊎ ((b ≡ b') × (d < d'))))

-- A positive fraction in lowest terms, and exponents in range.
pub record IsTerm (t : Term) : Type 0 where
  pub num_pos : 1 ≤ t.num
  pub den_pos : 1 ≤ t.den
  pub num_fits : t.num ≤ max_component
  pub den_fits : t.den ≤ max_component
  pub lowest : (d : ℕ) → Divides d t.num → Divides d t.den → d ≡ 1
  pub work_fits : t.work ≤ 1024
  pub sign_fits : t.sign ≤ 1024
  pub shift_fits : t.shift ≤ 1024

-- Each monomial lies strictly before all later ones.
abbrev pub IsAscending : List Term → Type 0
IsAscending [] = Unit
IsAscending (t ∷ ts) = All (λ u. Lt (monomial t) (monomial u)) ts × IsAscending ts

abbrev pub encode : Term → Value
encode t = arr (
    cons (int (pos t.num)) (
      cons (int (pos t.den))
        (cons (int (pos t.work)) (cons (int (pos t.sign)) (cons (int (pos t.shift)) nil)))))

-- The JSON value of a bound.
abbrev pub encode_terms : List Term → Items
encode_terms [] = nil
encode_terms (t ∷ ts) = cons (encode t) (encode_terms ts)

-- ===== src/Contract/Terms/Checks.antt =====
-- What one round of the loop of `parse_bound` accepts.
use leansphincs.Base.{
  ℕ, zero, suc, ◌*◌, ◌≤◌, ◌≡◌, refl, sym, ap, ◌∙◌, ◌↔◌, false, Option, none, some, arith, ok,
  bind-eq-ok,
}
use leansphincs.Base.Int.{pos}
use leansphincs.Base.Gcd.{Divides, gcd-Divides, Divides-gcd, div-gcd}
use leansphincs.Base.Value.{Value, int, arr, Items, nil, cons}
use leansphincs.Contract.Scalar.{max_component}
use leansphincs.Contract.Terms.{
  monomial_le, component, components, reduced_den, out_of_order, check_unpacked, check_term,
}
use leansphincs.Contract.Terms.Data.{Term, Monomial, monomial}
use leansphincs.Contract.Terms.Spec.{Lt, IsTerm, encode}

pub Lt_trans : (m n k : Monomial) → Lt m n → Lt n k → Lt m k
Lt_trans m n k h j = grind arith

monomial_le-false : (m n : Monomial) → (monomial_le m n ≡ false) ↔ Lt n m
monomial_le-false m n = (λ h. ground arith, λ h. ground arith)

component_inv : (v : Value) (n : ℕ) → component v ≡ ok n → (v ≡ int (pos n)) × (n ≤ max_component)
unfolding component
component_inv (int (pos m)) n h = ground arith
component_inv _ n h = cc

component_of : (n : ℕ) → n ≤ max_component → component (int (pos n)) ≡ ok n
unfolding component
component_of n h = ground arith

abbrev encode_items : Term → Items
encode_items t = cons (int (pos t.num)) (
    cons (int (pos t.den))
      (cons (int (pos t.work)) (cons (int (pos t.sign)) (cons (int (pos t.shift)) nil))))

abbrev Fits : Term → Type 0
Fits t =
    (t.num ≤ max_component)
    × (t.den ≤ max_component)
    × (t.work ≤ max_component)
    × (t.sign ≤ max_component)
    × (t.shift ≤ max_component)

components_inv : (vs : Items) (t : Term) → components vs ≡ ok t → (vs ≡ encode_items t) × Fits t
unfolding components
components_inv (cons v₁ (cons v₂ (cons v₃ (cons v₄ (cons v₅ nil))))) t h =
    let (n₁, e₁, h₁) = bind-eq-ok (component v₁) _ h in
    let (n₂, e₂, h₂) = bind-eq-ok (component v₂) _ h₁ in
    let (n₃, e₃, h₃) = bind-eq-ok (component v₃) _ h₂ in
    let (n₄, e₄, h₄) = bind-eq-ok (component v₄) _ h₃ in
    let (n₅, e₅, h₅) = bind-eq-ok (component v₅) _ h₄ in
    ground (
      arith,
      component_inv v₁ n₁ e₁,
      component_inv v₂ n₂ e₂,
      component_inv v₃ n₃ e₃,
      component_inv v₄ n₄ e₄,
      component_inv v₅ n₅ e₅,
    )
components_inv _ t h = cc

components_of : (t : Term) → Fits t → components (encode_items t) ≡ ok t
unfolding components
components_of t (a, b, c, d, e) = rw (
  component_of t.num a,
  component_of t.den b,
  component_of t.work c,
  component_of t.sign d,
  component_of t.shift e,
)

-- The monomial lies behind the previous one.
abbrev pub After : Option Monomial → Monomial → Type 0
After none key = Unit
After (some previous) key = Lt previous key

out_of_order-false : (p : Option Monomial) (k : Monomial) → (out_of_order p k ≡ false) ↔ After p k
out_of_order-false none k = (λ h. tt, λ h. refl)
out_of_order-false (some previous) k = monomial_le-false k previous

-- What `check_unpacked` tests, as arithmetic.
abbrev Tested : Option Monomial → Term → Type 0
Tested p t =
    (1 ≤ t.num)
    × (1 ≤ t.den)
    × (reduced_den t.num t.den ≡ t.den)
    × (t.work ≤ 1024)
    × (t.sign ≤ 1024)
    × (t.shift ≤ 1024)
    × (out_of_order p (monomial t) ≡ false)

check_unpacked_inv :
    (p : Option Monomial) (t u : Term) → check_unpacked p t ≡ ok u → (t ≡ u) × Tested p t
unfolding check_unpacked
check_unpacked_inv p t u h = ground arith

check_unpacked_of : (p : Option Monomial) (t : Term) → Tested p t → check_unpacked p t ≡ ok t
unfolding check_unpacked
check_unpacked_of p t h = ground arith

factor_one : (d k : ℕ) → 1 ≡ d * k → d ≡ 1
factor_one zero k e = absurd (omega arith)
factor_one (suc zero) k e = refl
factor_one (suc (suc d)) zero e = absurd (omega arith)
factor_one (suc (suc d)) (suc k) e = absurd (omega arith)

-- `Fraction(num, den).denominator == den` says that the fraction is in lowest terms.
pub lowest_iff :
    (num den : ℕ)
    → 1 ≤ den
    → (reduced_den num den ≡ den) ↔ ((d : ℕ) → Divides d num → Divides d den → d ≡ 1)
lowest_iff num den h = (forth, back)
  where
    forth : reduced_den num den ≡ den → (d : ℕ) → Divides d num → Divides d den → d ≡ 1
    forth e d dn dd =
        let (k, ek) = Divides-gcd d num den dn dd in
        factor_one d k (sym ((div-gcd num den h).0 e) ∙ ek)

    back : ((d : ℕ) → Divides d num → Divides d den → d ≡ 1) → reduced_den num den ≡ den
    back f = (div-gcd num den h).1 (f _ (gcd-Divides num den).0 (gcd-Divides num den).1)

IsTerm-of : (p : Option Monomial) (t : Term) → Fits t → Tested p t → IsTerm t × After p (monomial t)
IsTerm-of p t fits (n, d, low, a, b, k, order) = (
  record {
    num_pos = n;
    den_pos = d;
    num_fits = fits.0;
    den_fits = fits.1;
    lowest = (lowest_iff t.num t.den d).0 low;
    work_fits = a;
    sign_fits = b;
    shift_fits = k;
  },
  (out_of_order-false p (monomial t)).0 order,
)

Tested-of : (p : Option Monomial) (t : Term) → IsTerm t → After p (monomial t) → Fits t × Tested p t
Tested-of p t h after = (
  omega arith,
  (
    h.num_pos,
    h.den_pos,
    (lowest_iff t.num t.den h.den_pos).1 h.lowest,
    h.work_fits,
    h.sign_fits,
    h.shift_fits,
    (out_of_order-false p (monomial t)).1 after,
  ),
)

pub check_term_inv :
    (p : Option Monomial) (v : Value) (t : Term)
    → check_term p v ≡ ok t
    → (v ≡ encode t) × IsTerm t × After p (monomial t)
unfolding check_term
check_term_inv p (arr vs) t h =
    let (u, e, k) = bind-eq-ok (components vs) _ h in
    let (shape, fits) = components_inv vs u e in
    let (same, tested) = check_unpacked_inv p u t k in
    let (term, after) = IsTerm-of p u fits tested in rw (← same) (ap arr shape, term, after)
check_term_inv p _ t h = cc

pub check_term_of :
    (p : Option Monomial) (t : Term)
    → IsTerm t
    → After p (monomial t)
    → check_term p (encode t) ≡ ok t
check_term_of p t h after =
    let (fits, tested) = Tested-of p t h after in
    unfold check_term in rw (components_of t fits, check_unpacked_of p t tested)

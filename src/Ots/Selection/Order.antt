-- ===== src/Ots/Selection/Order.antt =====
-- The order of the keys, which is that of whole numbers.
use text.Mathlib.Text.{◌==◌ as str_eq}
use native.Mathlib.Nat.{
  lt_of_mul-lt-mul_right, le_of_mul-le-mul_right, mul-le-mul_right, mul-lt-mul_of_pos_right,
  mul-pos, eq_of_mul-eq-mul_left,
}
use leansphincs.Base.{
  ℕ, ◌+◌, ◌*◌, ◌≤◌, ◌<◌, ◌≡◌, refl, sym, ap, ◌∙◌, String, Bool, true, false, ◌&&◌, ◌||◌, Bool-cases,
  inl, inr, Option, none, some, arith, ltb, ltb-false_of_le, ◌==◌, if◌then◌else◌,
}
use leansphincs.Base.Fraction.{Fraction, fraction, times, plus, Stands, fraction-Stands}
use leansphincs.Ots.Pareto.{Candidate}
use leansphincs.Ots.Selection.{whole, fraction_eq, fraction_lt}

-- The objective of a selection, times the denominator of the price.
abbrev pub additive_objective : Option Fraction → Candidate → ℕ
additive_objective none c = 0
additive_objective (some price) c =
    price.num * c.padded_signature_bytes + c.verification * price.den

abbrev pub objective : String → Option Fraction → Candidate → ℕ
objective selection price c =
    if str_eq selection "additive"
    then additive_objective price c
    else if str_eq selection "verification"
    then c.verification
    else c.padded_signature_bytes * c.verification

abbrev pub Triple : Type 0
Triple = ℕ × ℕ × ℕ

abbrev pub before : Triple → Triple → Bool
before (o, s, v) (o', s', v') = if o == o' then ltb s s' || (s == s' && ltb v v') else ltb o o'

abbrev pub key : String → Option Fraction → Candidate → Triple
key selection price c = (objective selection price c, c.padded_signature_bytes, c.verification)

-- No candidate beats `c`: a smaller objective, or the same and fewer bytes, or also these and less work.
abbrev pub beats : String → Option Fraction → Candidate → Candidate → Bool
beats selection price d c = before (key selection price d) (key selection price c)

pub before_trans : (a b c : Triple) → before b a ≡ false → before c b ≡ false → before c a ≡ false
before_trans (o, s, v) (o', s', v') (o'', s'', v'') h k = ground arith

pub before_irrefl : (a : Triple) → before a a ≡ false
before_irrefl (o, s, v) = ground arith

pub before_asym : (a b : Triple) → before a b ≡ true → before b a ≡ false
before_asym (o, s, v) (o', s', v') h = ground arith

ltb_of_lt : (p q : ℕ) → p < q → ltb p q ≡ true
ltb_of_lt p q h = ground arith

ltb_scale : (p q x y d m : ℕ) → p * d ≡ x * m → q * d ≡ y * m → 1 ≤ d → 1 ≤ m → ltb p q ≡ ltb x y
ltb_scale p q x y d m e f hd hm = elim (Bool-cases (ltb x y)) [
  | inl h ↦
      let small : x * m < y * m = mul-lt-mul_of_pos_right (ground arith) (omega arith) in
      let less_than = lt_of_mul-lt-mul_right d {m = p} {n = q} (omega (arith, small)) in
      ltb_of_lt p q less_than ∙ sym h
  | inr h ↦
      let large : y * m ≤ x * m = mul-le-mul_right m (ground arith) in
      let at_least =
        le_of_mul-le-mul_right {m = q} {n = p} {k = d} (omega (arith, large)) (omega arith) in
      ltb-false_of_le q p at_least ∙ sym h
]

equal_of_order : (p q x y : ℕ) → ltb p q ≡ ltb x y → ltb q p ≡ ltb y x → (p == q) ≡ (x == y)
equal_of_order p q x y h k = ground arith

-- Fractions over one denominator compare as their numerators do.
pub Stands-order :
    (a b : Fraction) (x y d : ℕ)
    → Stands a x d
    → Stands b y d
    → 1 ≤ d
    → (fraction_eq a b ≡ (x == y)) × (fraction_lt a b ≡ ltb x y)
Stands-order a b x y d (ea, pa) (eb, pb) hd =
    let m = a.den * b.den in
    let hm : 1 ≤ m = mul-pos pa pb in
    let left : (a.num * b.den) * d ≡ x * m = omega (arith, ap (λ (t : ℕ). t * b.den) ea) in
    let right : (b.num * a.den) * d ≡ y * m = omega (arith, ap (λ (t : ℕ). t * a.den) eb) in
    let lt = ltb_scale (a.num * b.den) (b.num * a.den) x y d m left right hd hm in
    let gt = ltb_scale (b.num * a.den) (a.num * b.den) y x d m right left hd hm in
    (equal_of_order (a.num * b.den) (b.num * a.den) x y lt gt, lt)

pub whole-Stands : (n : ℕ) → Stands (whole n) n 1
whole-Stands n = (refl, omega arith)

-- `price * size + verification`, over the denominator of the price.
pub additive-Stands :
    (size work : ℕ) (price : Fraction)
    → 1 ≤ price.den
    → Stands
        (plus (times price (whole size)) (whole work))
        (price.num * size + work * price.den)
        price.den
unfolding times plus
additive-Stands size work price h =
    let a = fraction (price.num * size) (price.den * 1) in
    let (ea, pa) = fraction-Stands (price.num * size) (price.den * 1) (omega arith) in
    let q = fraction (a.num * 1 + work * a.den) (a.den * 1) in
    let (eq, pq) = fraction-Stands (a.num * 1 + work * a.den) (a.den * 1) (omega arith) in
    (
      eq_of_mul-eq-mul_left a.den pa (q.num * price.den)
          ((price.num * size + work * price.den) * q.den)
          (omega (arith, ap (λ (t : ℕ). t * price.den) eq, ap (λ (t : ℕ). t * q.den) ea)),
      pq,
    )

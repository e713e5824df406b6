-- ===== src/Base/Fraction.antt =====
-- `fractions.Fraction`, without the sign: the scripts raise on a negative one before they compute.
use Prim.Native.Nat.{ℕ, zero, suc, ◌+◌, ◌*◌, ◌/◌, ◌≤◌}
use mathlib.Core.Path.{◌≡◌, ap}
use native.Mathlib.Nat.{div-eq_of_eq-mul_right}
use native.Mathlib.Omega.{arith}
use leansphincs.Base.Gcd.{gcd, gcd-Divides, gcd_pos}

pub record Fraction : Type 0 where
  pub num : ℕ
  pub den : ℕ

factor_pos : (g y : ℕ) → 1 ≤ g * y → 1 ≤ y
factor_pos g zero h = absurd (omega arith)
factor_pos g (suc y) h = omega arith

-- `Fraction(num, den)`, which divides by the greatest common divisor.
unfoldable pub fraction : ℕ → ℕ → Fraction
fraction num den = record { num = num / gcd num den; den = den / gcd num den }

-- `a * b` and `a + b`
unfoldable pub times : Fraction → Fraction → Fraction
unfolding fraction
times a b = fraction (a.num * b.num) (a.den * b.den)

unfoldable pub plus : Fraction → Fraction → Fraction
unfolding fraction
plus a b = fraction (a.num * b.den + b.num * a.den) (a.den * b.den)

-- The fraction has the value of `num` over `den`.
abbrev pub Stands : Fraction → ℕ → ℕ → Type 0
Stands f num den = (f.num * den ≡ num * f.den) × (1 ≤ f.den)

pub fraction-Stands : (num den : ℕ) → 1 ≤ den → Stands (fraction num den) num den
unfolding fraction
fraction-Stands num den h =
    let ((x, ex), (y, ey)) = gcd-Divides num den in
    let p = gcd_pos num den h in
    let qx : num / gcd num den ≡ x = div-eq_of_eq-mul_right p ex in
    let qy : den / gcd num den ≡ y = div-eq_of_eq-mul_right p ey in
    (
      rw (qx, qy) (omega (arith, ap (λ (t : ℕ). x * t) ey, ap (λ (t : ℕ). t * y) ex)),
      rw qy (factor_pos (gcd num den) y (rw (← ey) h)),
    )

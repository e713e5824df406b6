-- ===== src/Base/Gcd.antt =====
-- `math.gcd`, which `fractions.Fraction` divides by.
use mathlib.Core.Logic.{ite, dite}
use mathlib.Core.WellFounded
use mathlib.Core.WellFounded.{Acc, Acc-prop}
use native.Mathlib.Decide.{dec_lt}
use Prim.Native.Nat.{ℕ, zero, suc, ◌+◌, ◌-◌, ◌*◌, ◌/◌, ◌%◌, ◌≤◌, ◌<◌}
use mathlib.Core.Path.{◌≡◌, refl, ap}
use mathlib.Core.Logic.{◌↔◌}
use native.Mathlib.Omega.{arith}
use native.Mathlib.Nat.{div-add-mod, mul-sub}
use leansphincs.Base.Order.{lt_wf}

-- `while b: a, b = b, a % b`
euclid : (b : ℕ) → Acc ◌<◌ b → ℕ → ℕ
euclid b (Acc.intro _ below) a =
    dite (dec_lt 0 b) (λ p. euclid (a % b) (below (a % b) (omega arith)) b) (λ p. a)

unfoldable pub gcd : ℕ → ℕ → ℕ
unfolding euclid lt_wf dec_lt
gcd a b = euclid b (lt_wf.apply b) a

euclid_step :
    (a b : ℕ) (w : Acc ◌<◌ b) (w' : Acc ◌<◌ (a % b))
    → euclid b w a ≡ ite (dec_lt 0 b) (euclid (a % b) w' b) a
unfolding euclid
euclid_step a b (Acc.intro _ below) w' = λ i.
    dite (dec_lt 0 b) (λ p. euclid (a % b) (Acc-prop (below (a % b) (omega arith)) w' i) b) (λ p. a)

-- Euclid's step.
pub gcd_step : (a b : ℕ) → gcd a b ≡ ite (dec_lt 0 b) (gcd b (a % b)) a
unfolding gcd
gcd_step a b = euclid_step a b (lt_wf.apply b) (lt_wf.apply (a % b))

gcd_step_pos : (a b : ℕ) → 0 < b → gcd a b ≡ gcd b (a % b)
gcd_step_pos a b h = ground (arith, gcd_step a b)

gcd_step_zero : (a b : ℕ) → ¬ (0 < b) → gcd a b ≡ a
gcd_step_zero a b h = ground (arith, gcd_step a b)

-- `d` divides `n`.
abbrev pub Divides : ℕ → ℕ → Type 0
Divides d n = (k : ℕ) × (n ≡ d * k)

step-Divides : (d a b : ℕ) → Divides d b → Divides d (a % b) → Divides d a
step-Divides d a b (x, ex) (y, ey) =
    (a / b * x + y, omega (arith, div-add-mod a b, ap (λ (t : ℕ). t * (a / b)) ex))

rest-Divides : (d a b : ℕ) → Divides d a → Divides d b → Divides d (a % b)
rest-Divides d a b (x, ex) (y, ey) =
    (x - a / b * y, rw mul-sub (omega (arith, div-add-mod a b, ap (λ (t : ℕ). t * (a / b)) ey)))

pub gcd-Divides : (a b : ℕ) → Divides (gcd a b) a × Divides (gcd a b) b
gcd-Divides a b =
    WellFounded.induction lt_wf {C = λ m. (n : ℕ) → Divides (gcd n m) n × Divides (gcd n m) m} b
      (λ m ih n. elim (dec_lt 0 m) [
        | yes p ↦
            let (db, dr) = ih (n % m) (omega arith) m in
            rw (gcd_step_pos n m p) (step-Divides (gcd m (n % m)) n m db dr, db)
        | no p ↦ rw (gcd_step_zero n m p) ((1, omega arith), (0, omega arith))
      ])
      a

pub Divides-gcd : (d a b : ℕ) → Divides d a → Divides d b → Divides d (gcd a b)
Divides-gcd d a b ha hb =
    WellFounded.induction lt_wf {C = λ m. (n : ℕ) → Divides d n → Divides d m → Divides d (gcd n m)}
      b
      (λ m ih n hn hm. elim (dec_lt 0 m) [
        | yes p ↦ rw (gcd_step_pos n m p) (ih (n % m) (omega arith) m hm (rest-Divides d n m hn hm))
        | no p ↦ rw (gcd_step_zero n m p) hn
      ])
      a ha hb

pub gcd_pos : (a b : ℕ) → 0 < b → 0 < gcd a b
gcd_pos a b h = let (y, ey) = (gcd-Divides a b).1 in grind arith

factor_le_one : (g b : ℕ) → 0 < b → g * b ≤ b → 0 < g → g ≡ 1
factor_le_one zero b h k p = absurd (omega arith)
factor_le_one (suc zero) b h k p = refl
factor_le_one (suc (suc g)) b h k p = absurd (omega arith)

-- Dividing both by the greatest common divisor changes the denominator unless it is 1.
pub div-gcd : (a b : ℕ) → 0 < b → (b / gcd a b ≡ b) ↔ (gcd a b ≡ 1)
div-gcd a b h =
    let (y, ey) = (gcd-Divides a b).1 in
    let g = gcd a b in
    (
      λ e.
          factor_le_one g b h (omega (arith, div-add-mod b g, ap (λ (t : ℕ). g * t) e))
            (gcd_pos a b h),
      λ e. rw e (omega arith),
    )

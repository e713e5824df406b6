-- ===== src/Contract/Terms/Data.antt =====
-- A term of the bound: `[numerator, denominator, workExponent, signExponent, k]`.
use leansphincs.Base.{ℕ}

-- (numerator / denominator) * Q ^ work * qS ^ sign / 2 ^ shift
pub record Term : Type 0 where
  pub num : ℕ
  pub den : ℕ
  pub work : ℕ
  pub sign : ℕ
  pub shift : ℕ

-- (a, b, d)
abbrev pub Monomial : Type 0
Monomial = ℕ × ℕ × ℕ

abbrev pub monomial : Term → Monomial
monomial t = (t.work, t.sign, t.shift)

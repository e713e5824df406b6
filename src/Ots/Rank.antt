-- ===== src/Ots/Rank.antt =====
-- `rank_key` of scripts/ots_experiments.py, on arguments that are fractions already.
use leansphincs.Base.{
  ℕ, ◌^◌, Bool, not, ◌&&◌, ◌||◌, ltb, ◌==◌, Result, ok, value_error, ◌>>◌, raise_if,
}
use leansphincs.Base.Fraction.{Fraction, times}

-- `f ** n`, which is reduced if `f` is.
abbrev pub fraction_power : Fraction → ℕ → Fraction
fraction_power f n = record { num = f.num ^ n; den = f.den ^ n }

abbrev pub is_zero : Fraction → Bool
is_zero f = f.num == 0

unfoldable pub rank_key : Fraction → Fraction → Fraction → Fraction → Fraction → Result Fraction
rank_key size keygen signing verification beta = do
  raise_if
      (is_zero size
        || is_zero keygen
        || is_zero signing
        || is_zero verification
        || not (ltb 0 beta.num && ltb beta.num beta.den))
      (value_error "positive metrics and 0 < beta < 1 required")
  ok (
      times (fraction_power (times (times size signing) verification) beta.den)
        (fraction_power keygen beta.num))

-- ===== src/Ots/Selection.antt =====
-- The choice of a candidate in `experiments` of scripts/ots_experiments.py.
pub mod Order
pub mod Ranks
pub mod Least
use text.Mathlib.Text.{◌==◌ as str_eq}
use leansphincs.Base.{
  ℕ, ◌+◌, ◌*◌, String, Bool, true, false, not, ◌&&◌, ◌||◌, List, [], ◌∷◌, Option, none, some, ltb,
  ◌==◌, if◌then◌else◌, Result, ok, err, type_error, ◌>>=◌,
}
use leansphincs.Base.Fraction.{Fraction}
use leansphincs.Scoring.{additive_score}
use leansphincs.Ots.Pareto.{Candidate}

-- The integer `n` as a fraction.
abbrev pub whole : ℕ → Fraction
whole n = record { num = n; den = 1 }

-- The tuple that `key` returns.
pub record Rank : Type 0 where
  pub score : Fraction
  pub size : ℕ
  pub work : ℕ

-- `a == b` and `a < b` on fractions, by their values.
abbrev pub fraction_eq : Fraction → Fraction → Bool
fraction_eq a b = a.num * b.den == b.num * a.den

abbrev pub fraction_lt : Fraction → Fraction → Bool
fraction_lt a b = ltb (a.num * b.den) (b.num * a.den)

-- `<` on the tuples.
abbrev pub less : Rank → Rank → Bool
less r q =
    if fraction_eq r.score q.score
    then ltb r.size q.size || (r.size == q.size && ltb r.work q.work)
    else fraction_lt r.score q.score

abbrev pub rank_with : Result Fraction → Candidate → Result Rank
rank_with (err e) c = err e
rank_with (ok score) c =
    ok (record { score = score; size = c.padded_signature_bytes; work = c.verification })

-- `key`, for a selection that is not `frontier`. Without a price `Fraction(None)` raises.
abbrev pub additive_of : Option Fraction → Candidate → Result Fraction
additive_of none c = err (type_error "argument should be a string or a Rational instance")
additive_of (some price) c =
    additive_score (whole c.padded_signature_bytes) (whole c.verification) price

unfoldable pub rank_of : String → Option Fraction → Candidate → Result Rank
rank_of selection price c =
    rank_with
      (if str_eq selection "additive"
        then additive_of price c
        else ok (
            whole (
              if str_eq selection "verification"
              then c.verification
              else c.padded_signature_bytes * c.verification)))
      c

-- The keys of all candidates.
unfoldable pub ranked : String → Option Fraction → List Candidate → Result (List (Rank × Candidate))
ranked selection price [] = ok []
ranked selection price (c ∷ cs) = do
  r ← rank_of selection price c
  rest ← ranked selection price cs
  ok ((r, c) ∷ rest)

-- `min`, with the best so far: the first of the least.
unfoldable pub lowest : Rank × Candidate → List (Rank × Candidate) → Rank × Candidate
lowest best [] = best
lowest best (x ∷ xs) = lowest (if less x.0 best.0 then x else best) xs

abbrev pub lowest_of : List (Rank × Candidate) → Option Candidate
lowest_of [] = none
lowest_of (x ∷ xs) = some (lowest x xs).1

-- `if candidates and selection != "frontier": … min(candidates, key=key)`
unfoldable pub choose : String → Option Fraction → List Candidate → Result (Option Candidate)
choose selection price cs =
    if str_eq selection "frontier"
    then ok none
    else (ranked selection price cs >>= (λ keyed. ok (lowest_of keyed)))

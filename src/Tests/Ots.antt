-- ===== src/Tests/Ots.antt =====
-- scripts/ots_experiments.py on small polynomials and candidates.
use leansphincs.Base.{ℕ, ◌≤◌, ◌≡◌, refl, ◌+◌, ◌*◌, ◌^◌, ok, some, false, arith, List, [], ◌∷◌, All}
use leansphincs.Ots.Poly.{Poly, get, power}
use leansphincs.Ots.Poly.Ways.{ways, get-power}
use leansphincs.Ots.Rank.{rank_key}
use leansphincs.Ots.Search.{search, fewest, IsFewest, fewest-IsFewest}
use leansphincs.Ots.Rows.{shared_rows, rows_poly, total, total-shared_rows}
use leansphincs.Ots.Cost.{hash_cost, hash_cost-Covers, Covers, tariff}
use leansphincs.Ots.Selection.{whole, rank_of, ranked, lowest, choose}
use leansphincs.Ots.Selection.Order.{beats}
use leansphincs.Ots.Selection.Least.{choose-IsLeast}
use leansphincs.Scoring.{additive_score}
use leansphincs.Base.Fraction.{Fraction, fraction, times, plus}
use leansphincs.Base.Gcd.{gcd}
use leansphincs.Base.Order.{lt_wf}
use leansphincs.Ots.Pareto.{Candidate, pareto}
use leansphincs.Ots.Pareto.Frontier.{pareto-IsFrontier, IsFrontier, Any, Dominates}

-- `chain2` of `experiments`.
abbrev chain : Poly
chain = ((0, 1), 1) ∷ ((1, 1), 1) ∷ ((2, 1), 1) ∷ []

-- (1 + x + x²)³, cut at x⁴.
power_run :
    power 4 9 chain 3 ≡ ((0, 3), 1) ∷ ((1, 3), 3) ∷ ((2, 3), 6) ∷ ((3, 3), 7) ∷ ((4, 3), 6) ∷ []
unfolding power
power_run = refl

get-power_example : get (3, 3) (power 4 9 chain 3) ≡ 7
unfolding ways
get-power_example = get-power 4 9 (3, 3) chain 3

hash_cost-Covers_example : (1 ≤ 7) × Covers (tariff "rom32") 12 7
unfolding hash_cost
hash_cost-Covers_example = hash_cost-Covers 12 "rom32" 7 refl

abbrev candidate : ℕ → ℕ → Candidate
candidate size verification = record {
  reconstruction = 0;
  verification = verification;
  disclosure_values_cap = 0;
  padded_signature_bytes = size;
  eligible_count = 1;
}

abbrev three : List Candidate
three = candidate 5 4 ∷ candidate 3 4 ∷ candidate 7 2 ∷ []

pareto_run : pareto three ≡ candidate 3 4 ∷ candidate 7 2 ∷ []
unfolding pareto
pareto_run = refl

pareto-IsFrontier_example :
    ((P : Candidate → Type 0) → All P three → All P (pareto three))
    × IsFrontier (pareto three)
    × All (λ c. Any (Dominates c) (pareto three)) three
pareto-IsFrontier_example = pareto-IsFrontier three

abbrev cubes : Poly
cubes = ((3, 1), 2) ∷ ((3, 3), 7) ∷ ((4, 3), 6) ∷ []

fewest_run : fewest cubes 8 3 5 ≡ some (3, 9)
unfolding fewest search get
fewest_run = refl

fewest-IsFewest_example : IsFewest cubes 8 3 5 0 (fewest cubes 8 3 5)
fewest-IsFewest_example = fewest-IsFewest cubes 8 3 5

shared_rows_run : shared_rows 2 "rom32" ≡ ok (rows_poly 2 3 1)
unfolding shared_rows hash_cost
shared_rows_run = refl

total-shared_rows_example : total (rows_poly 2 3 1) + 15 ≡ 2 + 15 * 2 ^ 2
total-shared_rows_example = total-shared_rows 2 "rom32" (rows_poly 2 3 1) shared_rows_run

-- A byte costs half a unit: the candidates of 3 and of 7 bytes both cost 11 / 2, and the first has
-- fewer bytes.
abbrev half : Fraction
half = record { num = 1; den = 2 }

choose_run : choose "additive" (some half) three ≡ ok (some (candidate 3 4))
unfolding choose ranked rank_of lowest additive_score plus times fraction gcd lt_wf
choose_run = refl

choose-IsLeast_example :
    ((P : Candidate → Type 0) → All P three → P (candidate 3 4))
    × All (λ d. beats "additive" (some half) d (candidate 3 4) ≡ false) three
choose-IsLeast_example =
    choose-IsLeast "additive" (some half) three (candidate 3 4) (omega arith) choose_run

-- A run of tests/test_ots_experiments.py.
rank_run :
    rank_key (whole 2) (whole 16) (whole 3) (whole 5) (record { num = 1; den = 4 })
    ≡ ok (whole 12960000)
unfolding rank_key times fraction gcd lt_wf
rank_run = refl

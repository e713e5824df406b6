-- ===== src/Ots/Search.antt =====
-- The search of `experiments` in scripts/ots_experiments.py: for each verification cost, the fewest
-- disclosed values with which a codebook is large enough.
use leansphincs.Base.{
  ℕ, zero, suc, ◌+◌, ◌*◌, ◌≤◌, ◌<◌, ◌≡◌, refl, sym, subst, ◌==◌, ==_iff, inl, inr, Bool-cases,
  Option, none, some, List, [], ◌∷◌, arith, leb, if◌then◌else◌,
}
use leansphincs.Ots.Poly.{Poly, get}
use leansphincs.Ots.Pareto.{Candidate}

module _ (choices : Poly) (target cost : ℕ) where
  -- The inner loop, by the values that are left, from `values` with what is available below it.
  unfoldable pub search : ℕ → ℕ → ℕ → Option (ℕ × ℕ)
  search zero values available = none
  search (suc n) values available =
      let available' = available + get (cost, values) choices in
      let rest = search n (suc values) available' in
      if leb target available' then some (values, available') else rest

  -- The number of codewords of the cost with at most `values` disclosed values, and at least one.
  abbrev pub codewords : ℕ → ℕ
  codewords zero = 0
  codewords (suc v) = codewords v + get (cost, suc v) choices

  -- The answer for the values from `s + 1` to `s + n`: the first that suffices, if there is one.
  abbrev pub IsFewest : ℕ → ℕ → Option (ℕ × ℕ) → Type 0
  IsFewest n s none = (u : ℕ) → s < u → u ≤ s + n → codewords u < target
  IsFewest n s (some (v, available)) =
      (s < v)
      × (v ≤ s + n)
      × (available ≡ codewords v)
      × (target ≤ available)
      × ((u : ℕ) → s < u → u < v → codewords u < target)

  first_or_later :
      (s u : ℕ)
      → codewords (suc s) < target
      → s < u
      → (suc s < u → codewords u < target)
      → codewords u < target
  first_or_later s u h lo f = elim (Bool-cases (u == suc s)) [
    | inl e ↦ subst (λ x. codewords x < target) (sym ((==_iff u (suc s)).0 e)) h
    | inr e ↦ f (ground arith)
  ]

  -- One value more below.
  IsFewest-suc :
      (n s : ℕ) (o : Option (ℕ × ℕ))
      → codewords (suc s) < target
      → IsFewest n (suc s) o
      → IsFewest (suc n) s o
  IsFewest-suc n s none h f = λ u lo hi. first_or_later s u h lo (λ later. f u later (omega arith))
  IsFewest-suc n s (some (v, available)) h (lo, hi, e, enough, f) = (
    omega arith,
    omega arith,
    e,
    enough,
    λ u lo' hi'. first_or_later s u h lo' (λ later. f u later hi'),
  )

  search-IsFewest : (n s : ℕ) → IsFewest n s (search n (suc s) (codewords s))
  unfolding search
  search-IsFewest zero s = λ u lo hi. absurd (omega arith)
  search-IsFewest (suc n) s = elim (Bool-cases (leb target (codewords (suc s)))) [
    | inl e ↦ rw e (omega arith, omega arith, refl, (ground arith), λ u lo hi. absurd (omega arith))
    | inr e ↦ rw e (
        IsFewest-suc n s (search n (suc (suc s)) (codewords (suc s))) (ground arith)
          (search-IsFewest n (suc s)))
  ]

  -- `experiments` takes, for a cost, the first value from 1 on.
  unfoldable pub fewest : ℕ → Option (ℕ × ℕ)
  fewest max_values = search max_values 1 0

  -- The search answers the least number of disclosed values, from 1 up to the cap, with which the
  -- codewords of the cost reach the target, with their number; and answers nothing only if no number
  -- of values up to the cap reaches it.
  pub fewest-IsFewest : (max_values : ℕ) → IsFewest max_values 0 (fewest max_values)
  unfolding fewest
  fewest-IsFewest max_values = search-IsFewest max_values 0

-- The candidate of a cost.
abbrev pub candidate : ℕ → ℕ → ℕ → ℕ × ℕ → Candidate
candidate root_cost block_cost cost (values, available) = record {
  reconstruction = cost + root_cost;
  verification = cost + root_cost + block_cost;
  disclosure_values_cap = values;
  padded_signature_bytes = (2 + values) * 16;
  eligible_count = available;
}

-- The outer loop, by the costs that are left. `root_cost` is `hash_cost(roots, profile)`, and
-- `block_cost` is `hash_cost(4, profile)`.
unfoldable pub candidates : Poly → ℕ → ℕ → ℕ → ℕ → ℕ → ℕ → List Candidate
candidates choices target max_values root_cost block_cost zero cost = []
candidates choices target max_values root_cost block_cost (suc n) cost =
    let rest = candidates choices target max_values root_cost block_cost n (suc cost) in
    elim (fewest choices target cost max_values) [
      | none ↦ rest
      | some found ↦ candidate root_cost block_cost cost found ∷ rest
    ]

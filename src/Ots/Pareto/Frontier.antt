-- ===== src/Ots/Pareto/Frontier.antt =====
-- What `pareto` returns is the Pareto frontier of the candidates.
use leansphincs.Base.{
  ℕ, ◌≤◌, ◌<◌, ◌≡◌, sym, subst, ◌⊎◌, inl, inr, Option, none, some, List, [], ◌∷◌, arith, All,
  All-map, All-map₂, Bool-cases, true, false,
}
use leansphincs.Ots.Pareto.{Candidate, improves, key_le, frontier, pareto}
use leansphincs.Ots.Pareto.Order.{Le, IsSorted, sort-key_le-IsSorted}
use leansphincs.Base.Sort.{sort, sort-All, sort-All_inv}

abbrev pub Any : (Candidate → Type 0) → List Candidate → Type 0
Any P [] = ⊥
Any P (x ∷ xs) = P x ⊎ Any P xs

-- `d` is no larger than `c`, and no slower to verify.
abbrev pub Dominates : Candidate → Candidate → Type 0
Dominates c d =
    (d.padded_signature_bytes ≤ c.padded_signature_bytes) × (d.verification ≤ c.verification)

-- Each is strictly smaller than all later ones, and strictly slower.
abbrev pub IsFrontier : List Candidate → Type 0
IsFrontier [] = Unit
IsFrontier (c ∷ cs) =
    All
      (λ d.
        (c.padded_signature_bytes < d.padded_signature_bytes) × (d.verification < c.verification))
      cs
    × IsFrontier cs

abbrev BestLe : Option ℕ → ℕ → Type 0
BestLe none v = ⊥
BestLe (some best) v = best ≤ v

-- Behind `best`, or dominated in what the loop adds.
abbrev Covered : Option ℕ → List Candidate → Candidate → Type 0
Covered best out c = BestLe best c.verification ⊎ Any (Dominates c) out

not_improves :
    (best : Option ℕ) (c : Candidate) → improves best c ≡ false → BestLe best c.verification
not_improves none c e = cc
not_improves (some best) c e = ground arith

-- What the new best covers, the new entry dominates.
add-Covered :
    (best : Option ℕ) (c d : Candidate) (rest : List Candidate)
    → Le c d
    → Covered (some c.verification) rest d
    → Covered best (c ∷ rest) d
add-Covered best c d rest le (inl h) = inr (inl (ground arith, h))
add-Covered best c d rest le (inr h) = inr (inr h)

frontier_take :
    (best : Option ℕ) (c : Candidate) (cs : List Candidate)
    → improves best c ≡ true
    → frontier best (c ∷ cs) ≡ c ∷ frontier (some c.verification) cs
unfolding frontier
frontier_take best c cs e = rw e

frontier_skip :
    (best : Option ℕ) (c : Candidate) (cs : List Candidate)
    → improves best c ≡ false
    → frontier best (c ∷ cs) ≡ frontier best cs
unfolding frontier
frontier_skip best c cs e = rw e

frontier_covers :
    (best : Option ℕ) (cs : List Candidate) → IsSorted cs → All (Covered best (frontier best cs)) cs
frontier_covers best [] s = tt
frontier_covers best (c ∷ cs) s = elim (Bool-cases (improves best c)) [
  | inl e ↦
      let rest = frontier (some c.verification) cs in
      subst (λ out. All (Covered best out) (c ∷ cs)) (sym (frontier_take best c cs e))
        (
          inr (inl (omega arith, omega arith)),
          All-map₂ (Le c) (Covered (some c.verification) rest) (Covered best (c ∷ rest)) cs
              (λ d. add-Covered best c d rest) s.0 (frontier_covers (some c.verification) cs s.1),
        )
  | inr e ↦
      subst (λ out. All (Covered best out) (c ∷ cs)) (sym (frontier_skip best c cs e))
        (inl (not_improves best c e), frontier_covers best cs s.1)
]

frontier-All :
    (P : Candidate → Type 0) (best : Option ℕ) (cs : List Candidate)
    → All P cs
    → All P (frontier best cs)
unfolding frontier
frontier-All P best [] h = tt
frontier-All P best (c ∷ cs) h = elim (Bool-cases (improves best c)) [
  | inl e ↦ rw e (h.0, frontier-All P (some c.verification) cs h.1)
  | inr e ↦ rw e (frontier-All P best cs h.1)
]

abbrev Below : Option ℕ → Candidate → Type 0
Below none d = Unit
Below (some best) d = d.verification < best

improves-Below : (best : Option ℕ) (c : Candidate) → improves best c ≡ true → Below best c
improves-Below none c e = tt
improves-Below (some best) c e = ground arith

Below-trans :
    (best : Option ℕ) (c d : Candidate)
    → Below best c
    → Below (some c.verification) d
    → Below best d
Below-trans none c d h k = tt
Below-trans (some best) c d h k = omega arith

-- What the loop adds verifies faster than the best before it.
frontier-Below : (best : Option ℕ) (cs : List Candidate) → All (Below best) (frontier best cs)
unfolding frontier
frontier-Below best [] = tt
frontier-Below best (c ∷ cs) = elim (Bool-cases (improves best c)) [
  | inl e ↦
      let first = improves-Below best c e in
      rw e (
        first,
        All-map (Below (some c.verification)) (Below best) (frontier (some c.verification) cs)
            (λ d. Below-trans best c d first) (frontier-Below (some c.verification) cs),
      )
  | inr e ↦ rw e (frontier-Below best cs)
]

-- In sorted order, faster to verify means strictly larger.
faster_is_larger :
    (c d : Candidate)
    → Le c d
    → d.verification < c.verification
    → (c.padded_signature_bytes < d.padded_signature_bytes) × (d.verification < c.verification)
faster_is_larger c d le h = (ground arith, h)

frontier-IsFrontier :
    (best : Option ℕ) (cs : List Candidate) → IsSorted cs → IsFrontier (frontier best cs)
unfolding frontier
frontier-IsFrontier best [] s = tt
frontier-IsFrontier best (c ∷ cs) s = elim (Bool-cases (improves best c)) [
  | inl e ↦
      let rest = frontier (some c.verification) cs in
      rw e (
        All-map₂ (Le c) (Below (some c.verification)) _ rest (faster_is_larger c)
            (frontier-All (Le c) (some c.verification) cs s.0)
            (frontier-Below (some c.verification) cs),
        frontier-IsFrontier (some c.verification) cs s.1,
      )
  | inr e ↦ rw e (frontier-IsFrontier best cs s.1)
]

BestLe_none : (out : List Candidate) (c : Candidate) → Covered none out c → Any (Dominates c) out
BestLe_none out c (inl h) = absurd h
BestLe_none out c (inr h) = h

-- Whatever the order and the number of the candidates, `pareto` returns a frontier: its entries come
-- from the candidates, they get strictly larger and strictly faster to verify, and each candidate is
-- dominated by one of them, so that no point of the trade-off is lost.
pub pareto-IsFrontier :
    (candidates : List Candidate)
    → ((P : Candidate → Type 0) → All P candidates → All P (pareto candidates))
      × IsFrontier (pareto candidates)
      × All (λ c. Any (Dominates c) (pareto candidates)) candidates
unfolding pareto
pareto-IsFrontier cs =
    let s = sort-key_le-IsSorted cs in
    (
      λ P h. frontier-All P none (sort key_le cs) (sort-All key_le P cs h),
      frontier-IsFrontier none (sort key_le cs) s,
      sort-All_inv key_le (λ c. Any (Dominates c) (frontier none (sort key_le cs))) cs
          (All-map (Covered none (frontier none (sort key_le cs))) _ (sort key_le cs)
            (BestLe_none (frontier none (sort key_le cs)))
            (frontier_covers none (sort key_le cs) s)),
    )

-- ===== src/Ots/Pareto.antt =====
-- `pareto` of scripts/ots_experiments.py: the size/verification frontier within one graph.
pub mod Order
pub mod Frontier
use leansphincs.Base.{
  ℕ, Bool, true, false, ◌&&◌, ◌||◌, Option, none, some, List, [], ◌∷◌, ltb, leb, ◌==◌,
  if◌then◌else◌,
}
use leansphincs.Base.Sort.{sort}

-- A candidate dict. `eligible_count` is `str(available)`, kept as the number.
pub record Candidate : Type 0 where
  pub reconstruction : ℕ
  pub verification : ℕ
  pub disclosure_values_cap : ℕ
  pub padded_signature_bytes : ℕ
  pub eligible_count : ℕ

-- `<=` on the sort keys.
abbrev pub key_le : Candidate → Candidate → Bool
key_le c d =
    ltb c.padded_signature_bytes d.padded_signature_bytes
    || (c.padded_signature_bytes == d.padded_signature_bytes && leb c.verification d.verification)

-- `best_verification is None or candidate["verification"] < best_verification`
abbrev pub improves : Option ℕ → Candidate → Bool
improves none c = true
improves (some best) c = ltb c.verification best

-- The loop, with the best verification so far.
unfoldable pub frontier : Option ℕ → List Candidate → List Candidate
frontier best [] = []
frontier best (c ∷ cs) =
    let better = improves best c in
    let rest = frontier (if better then some c.verification else best) cs in
    if better then c ∷ rest else rest

unfoldable pub pareto : List Candidate → List Candidate
unfolding frontier sort
pareto candidates = frontier none (sort key_le candidates)

-- ===== src/Contract/Render.antt =====
-- `lean_bound` and `render` of scripts/benchmark_contract.py: the Lean text that the comparator
-- holds a submission to, as code points.
pub mod Injective
use leansphincs.Base.{ℕ, ◌-◌, String, List, [], ◌∷◌, ◌++◌, codes}
use leansphincs.Base.Decimal.{decimal}
use leansphincs.Contract.Terms.Data.{Term}

-- f"⟨{num}, {den - 1}, {a}, {b}, {d}⟩"
lean_term : Term → List ℕ
lean_term t =
    codes "⟨"
    ++ (decimal t.num
        ++ (codes ", "
            ++ (decimal (t.den - 1)
                ++ (codes ", "
                    ++ (decimal t.work
                        ++ (codes ", "
                            ++ (decimal t.sign
                                ++ (codes ", " ++ (decimal t.shift ++ codes "⟩")))))))))

-- `", ".join(…)`
join : List (List ℕ) → List ℕ
join [] = []
join (t ∷ []) = t
join (t ∷ u ∷ ts) = t ++ (codes ", " ++ join (u ∷ ts))

lean_terms : List Term → List (List ℕ)
lean_terms [] = []
lean_terms (t ∷ ts) = lean_term t ∷ lean_terms ts

unfoldable pub lean_bound : List Term → List ℕ
unfolding join lean_terms lean_term
lean_bound ts = codes "[" ++ (join (lean_terms ts) ++ codes "]")

unfoldable pub template_head : List ℕ
template_head =
    codes
      "/- Generated trusted comparator template; the single definition hole is the scheme. -/\nimport LeanSphincs.Benchmark.Target\n\nnoncomputable def LeanSphincs.Submission.scheme : LeanSphincs.Benchmark.SigScheme :=\n  { SecretKey := Unit, keygen := pure ([], ()),\n    sign := fun _ _ => pure (some []), verify := fun _ _ _ => pure false }\n\ntheorem LeanSphincs.Benchmark.candidate :\n    LeanSphincs.Benchmark.SchemeClaim LeanSphincs.Submission.scheme\n      "

unfoldable pub template_tail : List ℕ
template_tail = codes " := by\n  sorry\n"

unfoldable pub render : ℕ → ℕ → List Term → List ℕ
render sigma hverify terms =
    template_head
    ++ (decimal sigma
        ++ (codes " " ++ (decimal hverify ++ (codes " " ++ (lean_bound terms ++ template_tail)))))

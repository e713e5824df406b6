-- ===== src/Ots/Selection/Least.antt =====
-- The chosen candidate has the least objective.
use text.Mathlib.Text.{◌==◌ as str_eq}
use leansphincs.Base.{
  ◌≡◌, refl, sym, subst, ap, ◌∙◌, String, true, false, Bool-cases, inl, inr, List, [], ◌∷◌, map,
  ◌↔◌, Option, none, some, All, if◌then◌else◌, ok, ◌>>=◌, bind-eq-ok, ok-injective,
}
use leansphincs.Base.Fraction.{Fraction}
use leansphincs.Ots.Pareto.{Candidate}
use leansphincs.Ots.Selection.{Rank, less, rank_of, ranked, lowest, lowest_of, choose}
use leansphincs.Ots.Selection.Order.{key, beats, before_trans, before_irrefl, before_asym}
use leansphincs.Ots.Selection.Ranks.{IsPrice, IsGood, rank_of_inv, less_before}

lowest_nil : (best : Rank × Candidate) → lowest best [] ≡ best
unfolding lowest
lowest_nil best = refl

lowest_take :
    (best x : Rank × Candidate) (xs : List (Rank × Candidate))
    → less x.0 best.0 ≡ true
    → lowest best (x ∷ xs) ≡ lowest x xs
unfolding lowest
lowest_take best x xs e = ap (λ b. lowest (if b then x else best) xs) e

lowest_skip :
    (best x : Rank × Candidate) (xs : List (Rank × Candidate))
    → less x.0 best.0 ≡ false
    → lowest best (x ∷ xs) ≡ lowest best xs
unfolding lowest
lowest_skip best x xs e = ap (λ b. lowest (if b then x else best) xs) e

module _ (selection : String) (price : Option Fraction) (valid : IsPrice price) where
  -- Nothing beats `c`.
  abbrev Unbeaten : Candidate → Candidate → Type 0
  Unbeaten c d = beats selection price d c ≡ false

  abbrev AllUnbeaten : (Rank × Candidate) → List (Rank × Candidate) → Type 0
  AllUnbeaten y = All (λ (z : Rank × Candidate). Unbeaten y.1 z.1)

  lowest-Unbeaten :
      (best : Rank × Candidate) (xs : List (Rank × Candidate))
      → IsGood selection price valid best
      → All (IsGood selection price valid) xs
      → AllUnbeaten (lowest best xs) (best ∷ xs)
  lowest-Unbeaten best [] g h =
      subst (λ y. AllUnbeaten y (best ∷ [])) (sym (lowest_nil best))
        (before_irrefl (key selection price best.1), tt)
  lowest-Unbeaten best (x ∷ xs) g h = elim (Bool-cases (less x.0 best.0)) [
    | inl e ↦
        let (ux, rest) = lowest-Unbeaten x xs h.0 h.1 in
        let won =
          before_asym (key selection price x.1) (key selection price best.1)
            (sym (less_before selection price valid x best h.0 g) ∙ e) in
        let all : AllUnbeaten (lowest x xs) (best ∷ x ∷ xs) = (
          before_trans (key selection price (lowest x xs).1) (key selection price x.1)
              (key selection price best.1) ux won,
          (ux, rest),
        ) in
        subst (λ y. AllUnbeaten y (best ∷ x ∷ xs)) (sym (lowest_take best x xs e)) all
    | inr e ↦
        let (ub, rest) = lowest-Unbeaten best xs g h.1 in
        let lost = sym (less_before selection price valid x best h.0 g) ∙ e in
        let all : AllUnbeaten (lowest best xs) (best ∷ x ∷ xs) = (
          ub,
          (
            before_trans (key selection price (lowest best xs).1) (key selection price best.1)
                (key selection price x.1) ub lost,
            rest,
          ),
        ) in
        subst (λ y. AllUnbeaten y (best ∷ x ∷ xs)) (sym (lowest_skip best x xs e)) all
  ]

  ranked_inv :
      (cs : List Candidate) (keyed : List (Rank × Candidate))
      → ranked selection price cs ≡ ok keyed
      → All (IsGood selection price valid) keyed × (cs ≡ map (λ (z : Rank × Candidate). z.1) keyed)
  unfolding ranked
  ranked_inv [] keyed h =
      subst
        (λ k. All (IsGood selection price valid) k × ([] ≡ map (λ (z : Rank × Candidate). z.1) k))
        (ok-injective _ _ h) (tt, refl)
  ranked_inv (c ∷ cs) keyed h =
      let (r, one, h₁) = bind-eq-ok (rank_of selection price c) _ h in
      let (rest, more, h₂) = bind-eq-ok (ranked selection price cs) _ h₁ in
      let (good, same) = ranked_inv cs rest more in
      subst
        (λ k.
          All (IsGood selection price valid) k × (c ∷ cs ≡ map (λ (z : Rank × Candidate). z.1) k))
        (ok-injective _ _ h₂) ((rank_of_inv selection price valid c one, good), ap (◌∷◌ c) same)

module _ (P : Candidate → Type 0) where
  All-candidates :
      (keyed : List (Rank × Candidate))
      → All (λ (z : Rank × Candidate). P z.1) keyed
        ↔ All P (map (λ (z : Rank × Candidate). z.1) keyed)
  All-candidates [] = (λ h. tt, λ h. tt)
  All-candidates (z ∷ keyed) =
      let (f, g) = All-candidates keyed in (λ h. (h.0, f h.1), λ h. (h.0, g h.1))

  lowest_from :
      (best : Rank × Candidate) (xs : List (Rank × Candidate))
      → P best.1
      → All (λ (z : Rank × Candidate). P z.1) xs
      → P (lowest best xs).1
  unfolding lowest
  lowest_from best [] p h = p
  lowest_from best (x ∷ xs) p h = elim (Bool-cases (less x.0 best.0)) [
    | inl e ↦ rw (lowest, e) (lowest_from x xs h.0 h.1)
    | inr e ↦ rw (lowest, e) (lowest_from best xs p h.1)
  ]

-- A selection that returns a candidate returns one of the candidates, and none of them beats it: none
-- has a smaller objective (price times size plus verification, verification, or their product), nor
-- the same with fewer bytes, nor the same with as many bytes and less verification.
pub choose-IsLeast :
    (selection : String) (price : Option Fraction) (cs : List Candidate) (c : Candidate)
    → IsPrice price
    → choose selection price cs ≡ ok (some c)
    → ((P : Candidate → Type 0) → All P cs → P c) × All (λ d. beats selection price d c ≡ false) cs
unfolding choose
choose-IsLeast selection price cs c valid h = elim (Bool-cases (str_eq selection "frontier")) [
  | inl e ↦ absurd (
      cc (
        sym (
          ap
            (λ b.
              if b
              then ok none
              else (ranked selection price cs >>= (λ keyed. ok (lowest_of keyed))))
            e)
        ∙ h))
  | inr e ↦ behind (
      sym (
        ap
          (λ b.
            if b then ok none else (ranked selection price cs >>= (λ keyed. ok (lowest_of keyed))))
          e)
      ∙ h)
]
  where
    from :
        (keyed : List (Rank × Candidate))
        → All (IsGood selection price valid) keyed
        → cs ≡ map (λ (z : Rank × Candidate). z.1) keyed
        → lowest_of keyed ≡ some c
        → ((P : Candidate → Type 0) → All P cs → P c)
          × All (λ d. beats selection price d c ≡ false) cs
    from [] good same h = absurd (cc)
    from (x ∷ xs) good same h =
        let found : (lowest x xs).1 ≡ c = cc in
        let unbeaten = lowest-Unbeaten selection price valid x xs good.0 good.1 in
        (
          λ P all.
              let each = (All-candidates P (x ∷ xs)).1 (subst (All P) same all) in
              subst P found (lowest_from P x xs each.0 each.1),
          subst (All _) (sym same) (
              (All-candidates (λ d. beats selection price d c ≡ false) (x ∷ xs)).0 (
                subst
                  (λ m.
                    All (λ (z : Rank × Candidate). beats selection price z.1 m ≡ false) (x ∷ xs))
                  found unbeaten)),
        )

    behind :
        (ranked selection price cs >>= (λ keyed. ok (lowest_of keyed))) ≡ ok (some c)
        → ((P : Candidate → Type 0) → All P cs → P c)
          × All (λ d. beats selection price d c ≡ false) cs
    behind h =
        let (keyed, made, h₁) = bind-eq-ok (ranked selection price cs) _ h in
        let (good, same) = ranked_inv selection price valid cs keyed made in
        from keyed good same (ok-injective _ _ h₁)

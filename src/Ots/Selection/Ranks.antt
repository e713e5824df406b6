-- ===== src/Ots/Selection/Ranks.antt =====
-- What the key of the sort of `selected_row` stands for.
use text.Mathlib.Text.{◌==◌ as str_eq}
use leansphincs.Base.{
  ℕ, ◌*◌, ◌≤◌, ◌≡◌, sym, subst, ap, ap₂, ◌∙◌, String, Bool, true, false, ◌&&◌, ◌||◌, Option, none,
  some, arith, ltb, ◌==◌, if◌then◌else◌, Result, ok, err, raise_if_then, ok-injective,
}
use leansphincs.Base.Fraction.{Fraction, Stands}
use leansphincs.Scoring.{additive_score}
use leansphincs.Ots.Pareto.{Candidate}
use leansphincs.Ots.Selection.{whole, Rank, less, rank_with, additive_of, rank_of}
use leansphincs.Ots.Selection.Order.{
  additive_objective, objective, beats, Stands-order, whole-Stands, additive-Stands,
}

-- A price is a reduced fraction, so that its denominator is positive.
abbrev pub IsPrice : Option Fraction → Type 0
IsPrice none = Unit
IsPrice (some price) = 1 ≤ price.den

abbrev pub price_unit : Option Fraction → ℕ
price_unit none = 1
price_unit (some price) = price.den

module _ (selection : String) (price : Option Fraction) (valid : IsPrice price) where
  -- The denominator of the objective.
  abbrev pub unit : ℕ
  unit = if str_eq selection "additive" then price_unit price else 1

  abbrev pub IsRank : Rank → Candidate → Type 0
  IsRank r c =
      Stands r.score (objective selection price c) unit
      × (r.size ≡ c.padded_signature_bytes)
      × (r.work ≡ c.verification)

  additive_of_inv :
      (o : Option Fraction) (c : Candidate) {f : Fraction}
      → IsPrice o
      → additive_of o c ≡ ok f
      → Stands f (additive_objective o c) (price_unit o)
  unfolding additive_score
  additive_of_inv none c v h = cc
  additive_of_inv (some p) c v h =
      let (_, h₁) = raise_if_then _ _ _ h in
      subst (λ f. Stands f (additive_objective (some p) c) p.den) (ok-injective _ _ h₁)
        (additive-Stands c.padded_signature_bytes c.verification p v)

  rank_with_inv :
      (x : Result Fraction) (c : Candidate) {r : Rank}
      → rank_with x c ≡ ok r
      → (x ≡ ok r.score) × (r.size ≡ c.padded_signature_bytes) × (r.work ≡ c.verification)
  rank_with_inv (err e) c h = cc
  rank_with_inv (ok f) c h =
      let same = ok-injective _ _ h in
      (
        ap (λ (q : Rank). ok q.score) same,
        sym (ap (λ (q : Rank). q.size) same),
        sym (ap (λ (q : Rank). q.work) same),
      )

  score_inv :
      (additive verification : Bool) (c : Candidate) {f : Fraction}
      → (if additive
          then additive_of price c
          else ok (
              whole (
                if verification
                then c.verification
                else c.padded_signature_bytes * c.verification)))
        ≡ ok f
      → Stands f
          (if additive
            then additive_objective price c
            else if verification
            then c.verification
            else c.padded_signature_bytes * c.verification)
          (if additive then price_unit price else 1)
  score_inv true b c h = additive_of_inv price c valid h
  score_inv false true c h =
      subst (λ f. Stands f c.verification 1) (ok-injective _ _ h) (whole-Stands c.verification)
  score_inv false false c h =
      let n = c.padded_signature_bytes * c.verification in
      subst (λ f. Stands f n 1) (ok-injective _ _ h) (whole-Stands n)

  pub rank_of_inv : (c : Candidate) {r : Rank} → rank_of selection price c ≡ ok r → IsRank r c
  unfolding rank_of
  rank_of_inv c h =
      let (score, size, work) = rank_with_inv _ c h in
      (
        score_inv (str_eq selection "additive") (str_eq selection "verification") c score,
        size,
        work,
      )

  unit_pos : 1 ≤ unit
  unit_pos = by_test (str_eq selection "additive") price valid
    where
      by_test : (b : Bool) (o : Option Fraction) → IsPrice o → 1 ≤ (if b then price_unit o else 1)
      by_test true none v = omega arith
      by_test true (some p) v = v
      by_test false o v = omega arith

  abbrev pub Ranked : Type 0
  Ranked = Rank × Candidate

  abbrev pub IsGood : Ranked → Type 0
  IsGood x = IsRank x.0 x.1

  pub less_before :
      (x y : Ranked) → IsGood x → IsGood y → less x.0 y.0 ≡ beats selection price x.1 y.1
  less_before (r, c) (q, d) (sr, ar, wr) (sq, aq, wq) =
      let (eq, lt) =
        Stands-order r.score q.score (objective selection price c) (objective selection price d)
          unit sr sq unit_pos in
      ap₂ (λ e l. if e then ltb r.size q.size || (r.size == q.size && ltb r.work q.work) else l) eq
        lt
      ∙ ap
          (λ b.
            if objective selection price c == objective selection price d
            then b
            else ltb (objective selection price c) (objective selection price d))
          (ap₂ (λ m n. ltb m n || (m == n && ltb r.work q.work)) ar aq
            ∙ ap₂
                (λ m n.
                  ltb c.padded_signature_bytes d.padded_signature_bytes
                  || (c.padded_signature_bytes == d.padded_signature_bytes && ltb m n))
                wr wq)

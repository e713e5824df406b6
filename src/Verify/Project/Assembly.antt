-- ===== src/Verify/Project/Assembly.antt =====
-- The part of a prepared project below a path, by the parts that lie there.
use leansphincs.Base.{
  ℕ, ◌≡◌, refl, sym, ap, ◌∙◌, false, ◌||◌, Bool-cases, inl, inr, List, [], ◌∷◌, ◌++◌, append-nil,
  none,
}
use leansphincs.Verify.Project.{
  Components, file, folder, Tree, Files, is_ignored, keep, is_challenge, is_challenge_artifact,
  nothing, place, flat,
}
use leansphincs.Verify.Project.Under.{
  strip, add_under, under, under-append, skip, Aside, place-Aside,
}
use leansphincs.Verify.Project.Parts.{
  at_benchmark, at_submission, lib_facet, ir_facet, built, written, tree_of, Parts, Parts,
}

-- The part of the project below `p`, where the copies of other files have nothing.
pub assemble :
    (p : Components) (t : Parts) (source : List ℕ)
    → under p t.top ≡ []
    → under p (place at_benchmark (keep is_challenge t.benchmark)) ≡ []
    → under p (place (".lake" ∷ "config" ∷ []) (keep nothing t.config)) ≡ []
    → under p (("home" ∷ [], folder) ∷ []) ≡ []
    → under p t.comparator ≡ []
    → under p t.scripts ≡ []
    → under p (tree_of t source)
      ≡ under p (place at_submission (flat t.submission))
        ++ (under p (written source)
            ++ (under p (built lib_facet t.lib) ++ under p (built ir_facet t.ir)))
assemble p t source h₁ h₂ h₃ h₄ h₅ h₆ =
    let home : Tree = ("home" ∷ [], folder) ∷ [] in
    let r₅ = home ++ (t.comparator ++ t.scripts) in
    let r₄ = built lib_facet t.lib ++ (built ir_facet t.ir ++ r₅) in
    let config = place (".lake" ∷ "config" ∷ []) (keep nothing t.config) in
    let r₃ = config ++ r₄ in
    let r₂ = written source ++ r₃ in
    let r₁ = place at_submission (flat t.submission) ++ r₂ in
    let benchmark = place at_benchmark (keep is_challenge t.benchmark) in
    let last : under p r₅ ≡ [] =
      skip p home (t.comparator ++ t.scripts) h₄ ∙ (skip p t.comparator t.scripts h₅ ∙ h₆) in
    skip p t.top (benchmark ++ r₁) h₁
    ∙ (skip p benchmark r₁ h₂
        ∙ (under-append p (place at_submission (flat t.submission)) r₂
            ∙ ap (λ x. under p (place at_submission (flat t.submission)) ++ x)
                (under-append p (written source) r₃
                  ∙ ap (λ x. under p (written source) ++ x)
                      (skip p config r₄ h₃
                        ∙ (under-append p (built lib_facet t.lib) (built ir_facet t.ir ++ r₅)
                            ∙ ap (λ x. under p (built lib_facet t.lib) ++ x)
                                (under-append p (built ir_facet t.ir) r₅
                                  ∙ (ap (λ x. under p (built ir_facet t.ir) ++ x) last
                                      ∙ append-nil _)))))))

pub built-under :
    (p at : Components) (files : Files)
    → Aside p (at ++ ("Benchmark" ∷ []))
    → under p (built at files) ≡ under p ((at ++ ("Submission" ∷ []), folder) ∷ [])
built-under p at files h =
    skip p (place (at ++ ("Benchmark" ∷ [])) (keep is_challenge_artifact files)) _
      (place-Aside p (at ++ ("Benchmark" ∷ [])) (keep is_challenge_artifact files) h)

-- No copied file takes the place of the challenge.
pub benchmark-challenge :
    (files : Files)
    → under
        ("LeanSphincs" ∷ "Benchmark" ∷ "Challenge.lean" ∷ [])
        (place at_benchmark (keep is_challenge files))
      ≡ []
unfolding keep place
benchmark-challenge [] = refl
benchmark-challenge ((path, bytes) ∷ files) = elim (Bool-cases (is_ignored is_challenge path)) [
  | inl e ↦ rw e (benchmark-challenge files)
  | inr e ↦
      let rest =
        under ("LeanSphincs" ∷ "Benchmark" ∷ "Challenge.lean" ∷ [])
          (place at_benchmark (keep is_challenge files)) in
      rw e (ap (λ o. add_under o (file bytes) rest) (other path e) ∙ benchmark-challenge files)
]
  where
    other :
        (path : Components)
        → is_ignored is_challenge path ≡ false
        → strip ("Challenge.lean" ∷ []) path ≡ none
    other [] h = refl
    other (c ∷ cs) h = elim (Bool-cases (is_challenge c)) [
      | inl e ↦ absurd (cc (sym (ap (λ b. b || is_ignored is_challenge cs) e) ∙ h))
      | inr e ↦ rw e refl
    ]

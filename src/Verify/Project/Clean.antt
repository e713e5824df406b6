-- ===== src/Verify/Project/Clean.antt =====
-- What a prepared project has of the submission and of the challenge.
use leansphincs.Base.{
  ℕ, ◌≡◌, refl, sym, subst, ap, ap₂, ◌∙◌, Bool, false, ◌||◌, Bool-cases, inl, inr, List, [], ◌∷◌,
  ◌++◌, append-nil, none, some, All, All-append, ok,
}
use leansphincs.Base.Prefix.{starts_with}
use leansphincs.Bundle.{Bundle, materialize}
use leansphincs.Verify.Project.{
  Components, Entry, file, folder, Tree, Files, Checkout, is_ignored, keep, is_challenge,
  is_challenge_artifact, nothing, place, flat, prepare_project,
}
use leansphincs.Verify.Project.Under.{strip, under, under-append, Aside, place-Aside, place-below}
use leansphincs.Verify.Project.Assembly.{assemble, built-under, benchmark-challenge}
use leansphincs.Verify.Project.Parts.{
  copy_files_aside, at_benchmark, at_submission, lib_facet, ir_facet, built, written, top_names,
  script_names, prepare_project_inv,
}

-- A component of the path starts with `Challenge.`.
abbrev pub has_stale_name : Components → Bool
has_stale_name [] = false
has_stale_name (c ∷ cs) = starts_with "Challenge." c || has_stale_name cs

has_stale_name-ignored :
    (path : Components) → has_stale_name path ≡ is_ignored is_challenge_artifact path
has_stale_name-ignored [] = refl
has_stale_name-ignored (c ∷ cs) =
    ap (λ b. starts_with "Challenge." c || b) (has_stale_name-ignored cs)

-- No entry has a name of an artifact of a challenge.
abbrev pub IsFresh : Tree → Type 0
IsFresh = All (λ (e : Components × Entry). has_stale_name e.0 ≡ false)

IsFresh-place :
    (p to : Components) (files : Files)
    → ((q : Components)
        → (r : Components) × (strip p (to ++ q) ≡ some r) × (has_stale_name r ≡ has_stale_name q))
    → IsFresh (under p (place to (keep is_challenge_artifact files)))
unfolding keep place
IsFresh-place p to [] h = tt
IsFresh-place p to ((path, bytes) ∷ files) h =
    elim (Bool-cases (is_ignored is_challenge_artifact path)) [
      | inl e ↦ rw e (IsFresh-place p to files h)
      | inr e ↦
          let (r, stripped, same) = h path in
          rw (e, stripped) (same ∙ (has_stale_name-ignored path ∙ e), IsFresh-place p to files h)
    ]

IsFresh-append : (s t : Tree) → IsFresh s → IsFresh t → IsFresh (s ++ t)
IsFresh-append = All-append (λ (e : Components × Entry). has_stale_name e.0 ≡ false)

IsFresh-built :
    (p at : Components) (files : Files)
    → IsFresh (under p (place (at ++ ("Benchmark" ∷ [])) (keep is_challenge_artifact files)))
    → IsFresh (under p ((at ++ ("Submission" ∷ []), folder) ∷ []))
    → IsFresh (under p (built at files))
IsFresh-built p at files h k =
    let cached = place (at ++ ("Benchmark" ∷ [])) (keep is_challenge_artifact files) in
    let last : Tree = (at ++ ("Submission" ∷ []), folder) ∷ [] in
    subst IsFresh (sym (under-append p cached last))
      (IsFresh-append (under p cached) (under p last) h k)

module _ (root : Checkout) (exists : Bool) (bundle : Bundle) (source : List ℕ) (tree : Tree)
    (prepared : prepare_project root exists bundle source ≡ ok tree) where
  -- The part below `p`, where the single files and the configuration have nothing.
  part :
      (p : Components)
      → All (λ name. strip p (name ∷ []) ≡ none) top_names
      → ((files : Files) → under p (place at_benchmark (keep is_challenge files)) ≡ [])
      → Aside p (".lake" ∷ "config" ∷ [])
      → under p (("home" ∷ [], folder) ∷ []) ≡ []
      → strip p ("comparator.json" ∷ []) ≡ none
      → All (λ name. strip p (name ∷ []) ≡ none) script_names
      → (files : Bundle) × (lib : Files) × (ir : Files) × (materialize false bundle ≡ ok files)
        × (under p tree
            ≡ under p (place at_submission (flat files))
              ++ (under p (written source)
                  ++ (under p (built lib_facet lib) ++ under p (built ir_facet ir))))
  part p tops benches config home compare scripts =
      let (t, (e₁, e₂, e₃, e₄), same) =
        prepare_project_inv root exists bundle source tree prepared in
      (
        t.submission,
        t.lib,
        t.ir,
        e₂,
        ap (under p) same
            ∙ assemble p t source (copy_files_aside root p [] top_names tops e₁)
                (benches t.benchmark)
                (place-Aside p (".lake" ∷ "config" ∷ []) (keep nothing t.config) config) home
                (copy_files_aside root p ("benchmark" ∷ []) ("comparator.json" ∷ []) (compare, tt)
                  e₃)
                (copy_files_aside root p ("scripts" ∷ []) script_names scripts e₄),
      )

  -- Where the copied parts have nothing either.
  bare_part :
      (p : Components)
      → All (λ name. strip p (name ∷ []) ≡ none) top_names
      → ((files : Files) → under p (place at_benchmark (keep is_challenge files)) ≡ [])
      → Aside p (".lake" ∷ "config" ∷ [])
      → under p (("home" ∷ [], folder) ∷ []) ≡ []
      → strip p ("comparator.json" ∷ []) ≡ none
      → All (λ name. strip p (name ∷ []) ≡ none) script_names
      → Aside p at_submission
      → Aside p (lib_facet ++ ("Benchmark" ∷ []))
      → Aside p (ir_facet ++ ("Benchmark" ∷ []))
      → under p tree
        ≡ under p (written source)
          ++ (under p ((lib_facet ++ ("Submission" ∷ []), folder) ∷ [])
              ++ under p ((ir_facet ++ ("Submission" ∷ []), folder) ∷ []))
  bare_part p tops benches config home compare scripts sub lib_aside ir_aside =
      let (files, lib, ir, _, same) = part p tops benches config home compare scripts in
      same
      ∙ ap₂ (λ x y. x ++ (under p (written source) ++ y))
          (place-Aside p at_submission (flat files) sub)
          (ap₂ (λ x y. x ++ y) (built-under p lib_facet lib lib_aside)
            (built-under p ir_facet ir ir_aside))

  submission_part :
      (files : Bundle) × (materialize false bundle ≡ ok files)
      × (under at_submission tree ≡ place [] (flat files))
  submission_part =
      let p = at_submission in
      let (files, lib, ir, copied, same) =
        part p (refl, (refl, (refl, (refl, tt))))
          (λ fs. place-Aside p at_benchmark (keep is_challenge fs) (λ q. refl)) (λ q. refl) refl
          refl (refl, (refl, (refl, tt))) in
      (
        files,
        copied,
        same
            ∙ (ap₂ (λ x y. x ++ y) (place-below p p (flat files) (λ q. refl))
                  (ap₂ (λ x y. x ++ y) (built-under p lib_facet lib (λ q. refl))
                    (built-under p ir_facet ir (λ q. refl)))
                ∙ append-nil _),
      )

  challenge_part :
      under ("LeanSphincs" ∷ "Benchmark" ∷ "Challenge.lean" ∷ []) tree ≡ ([], file source) ∷ []
  challenge_part =
      bare_part ("LeanSphincs" ∷ "Benchmark" ∷ "Challenge.lean" ∷ [])
        (refl, (refl, (refl, (refl, tt)))) benchmark-challenge (λ q. refl) refl refl
        (refl, (refl, (refl, tt))) (λ q. refl) (λ q. refl) (λ q. refl)

  lib_part : under (lib_facet ++ ("Submission" ∷ [])) tree ≡ ([], folder) ∷ []
  lib_part =
      let p = lib_facet ++ ("Submission" ∷ []) in
      bare_part p (refl, (refl, (refl, (refl, tt))))
        (λ fs. place-Aside p at_benchmark (keep is_challenge fs) (λ q. refl)) (λ q. refl) refl refl
        (refl, (refl, (refl, tt))) (λ q. refl) (λ q. refl) (λ q. refl)

  ir_part : under (ir_facet ++ ("Submission" ∷ [])) tree ≡ ([], folder) ∷ []
  ir_part =
      let p = ir_facet ++ ("Submission" ∷ []) in
      bare_part p (refl, (refl, (refl, (refl, tt))))
        (λ fs. place-Aside p at_benchmark (keep is_challenge fs) (λ q. refl)) (λ q. refl) refl refl
        (refl, (refl, (refl, tt))) (λ q. refl) (λ q. refl) (λ q. refl)

  IsFresh-part : IsFresh (under (".lake" ∷ "build" ∷ []) tree)
  unfolding starts_with
  IsFresh-part =
      let p : Components = ".lake" ∷ "build" ∷ [] in
      let (files, lib, ir, _, same) =
        part p (refl, (refl, (refl, (refl, tt))))
          (λ fs. place-Aside p at_benchmark (keep is_challenge fs) (λ q. refl)) (λ q. refl) refl
          refl (refl, (refl, (refl, tt))) in
      let fresh_lib =
        IsFresh-place p (lib_facet ++ ("Benchmark" ∷ [])) lib
          (λ q. ("lib" ∷ "lean" ∷ "LeanSphincs" ∷ "Benchmark" ∷ q, refl, refl)) in
      let fresh_ir =
        IsFresh-place p (ir_facet ++ ("Benchmark" ∷ [])) ir
          (λ q. ("ir" ∷ "LeanSphincs" ∷ "Benchmark" ∷ q, refl, refl)) in
      let clear = place-Aside p at_submission (flat files) (λ q. refl) in
      subst IsFresh
        (sym (
          same
          ∙ ap (λ x. x ++ (under p (built lib_facet lib) ++ under p (built ir_facet ir))) clear))
        (IsFresh-append (under p (built lib_facet lib)) (under p (built ir_facet ir))
          (IsFresh-built p lib_facet lib fresh_lib (refl, tt))
          (IsFresh-built p ir_facet ir fresh_ir (refl, tt)))

-- What `prepare_project` returns has, whatever the checkout held: under LeanSphincs/Submission the
-- files that `materialize` writes for the bundle, and nothing else; as the challenge the rendered
-- source; in the two build directories of the submission nothing; and no artifact of a challenge
-- anywhere in the build directory.
pub prepare_project-IsClean :
    (root : Checkout) (exists : Bool) (bundle : Bundle) (source : List ℕ) (tree : Tree)
    → prepare_project root exists bundle source ≡ ok tree
    → ((files : Bundle) × (materialize false bundle ≡ ok files)
        × (under ("LeanSphincs" ∷ "Submission" ∷ []) tree ≡ place [] (flat files)))
      × (under ("LeanSphincs" ∷ "Benchmark" ∷ "Challenge.lean" ∷ []) tree ≡ ([], file source) ∷ [])
      × (under (".lake" ∷ "build" ∷ "lib" ∷ "lean" ∷ "LeanSphincs" ∷ "Submission" ∷ []) tree
          ≡ ([], folder) ∷ [])
      × (under (".lake" ∷ "build" ∷ "ir" ∷ "LeanSphincs" ∷ "Submission" ∷ []) tree
          ≡ ([], folder) ∷ [])
      × IsFresh (under (".lake" ∷ "build" ∷ []) tree)
prepare_project-IsClean root exists bundle source tree h = (
  submission_part root exists bundle source tree h,
  challenge_part root exists bundle source tree h,
  lib_part root exists bundle source tree h,
  ir_part root exists bundle source tree h,
  IsFresh-part root exists bundle source tree h,
)

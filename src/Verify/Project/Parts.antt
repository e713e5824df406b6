-- ===== src/Verify/Project/Parts.antt =====
-- The parts that `prepare_project` puts together.
use leansphincs.Base.{
  ℕ, ◌≡◌, sym, ap, ap₂, ◌∙◌, String, Bool, true, false, List, [], ◌∷◌, ◌++◌, none, All,
  if◌then◌else◌, ok, bind-eq-ok, raise_if_then, ok-injective,
}
use leansphincs.Bundle.{Bundle, materialize}
use leansphincs.Verify.Project.{
  Components, file, link, folder, Tree, Files, Checkout, keep, is_challenge, is_challenge_artifact,
  nothing, place, flat, copytree, copytree_existing, copy_files, build_of, copy_facet,
  prepare_project,
}
use leansphincs.Verify.Project.Under.{strip, add_under, under}

module _ (root : Checkout) where
  pub copytree_inv :
      (path : Components) (ignored : String → Bool) {t : Tree}
      → copytree root path ignored ≡ ok t
      → (files : Files) × (t ≡ place path (keep ignored files))
  copytree_inv path ignored h =
      let (files, _, h₁) = bind-eq-ok (root.walk path) _ h in (files, sym (ok-injective _ _ h₁))

  pub existing_inv :
      (path : Components) (ignored : String → Bool) {t : Tree}
      → copytree_existing root path ignored ≡ ok t
      → (files : Files) × (t ≡ place path (keep ignored files))
  unfolding keep place
  existing_inv path ignored h = by_test (root.exists path) h
    where
      by_test :
          (b : Bool) {t : Tree}
          → (if b then copytree root path ignored else ok []) ≡ ok t
          → (files : Files) × (t ≡ place path (keep ignored files))
      by_test true h = copytree_inv path ignored h
      by_test false h = ([], sym (ok-injective _ _ h))

  pub facet_inv :
      (facet : Components) {t : Tree}
      → copy_facet root facet ≡ ok t
      → (files : Files) × (t
          ≡ place
              (build_of root (facet ++ ("LeanSphincs" ∷ "Benchmark" ∷ [])))
              (keep is_challenge_artifact files)
            ++ ((build_of root (facet ++ ("LeanSphincs" ∷ "Submission" ∷ [])), folder) ∷ []))
  facet_inv facet h =
      let (cached, copied, h₁) = bind-eq-ok (copytree_existing root _ is_challenge_artifact) _ h in
      let (files, same) = existing_inv _ is_challenge_artifact copied in
      let last : Tree =
        (build_of root (facet ++ ("LeanSphincs" ∷ "Submission" ∷ [])), folder) ∷ [] in
      (files, sym (ok-injective _ _ h₁) ∙ ap (λ c. c ++ last) same)

  -- A copied file lies at its name.
  pub copy_files_aside :
      (p source : Components) (names : List String) {t : Tree}
      → All (λ name. strip p (name ∷ []) ≡ none) names
      → copy_files root source names ≡ ok t
      → under p t ≡ []
  unfolding copy_files
  copy_files_aside p source [] a h = ap (under p) (sym (ok-injective _ _ h))
  copy_files_aside p source (name ∷ names) a h =
      let (bytes, _, h₁) = bind-eq-ok (root.read (source ++ (name ∷ []))) _ h in
      let (rest, copied, h₂) = bind-eq-ok (copy_files root source names) _ h₁ in
      ap (under p) (sym (ok-injective _ _ h₂))
      ∙ (ap (λ o. add_under o (file bytes) (under p rest)) a.0
          ∙ copy_files_aside p source names a.1 copied)

-- The parts of a prepared project.
pub record Parts : Type 0 where
  pub top : Tree
  pub benchmark : Files
  pub submission : Bundle
  pub config : Files
  pub lib : Files
  pub ir : Files
  pub comparator : Tree
  pub scripts : Tree

abbrev pub at_benchmark : Components
at_benchmark = "LeanSphincs" ∷ "Benchmark" ∷ []

abbrev pub at_submission : Components
at_submission = "LeanSphincs" ∷ "Submission" ∷ []

abbrev pub lib_facet : Components
lib_facet = ".lake" ∷ "build" ∷ "lib" ∷ "lean" ∷ "LeanSphincs" ∷ []

abbrev pub ir_facet : Components
ir_facet = ".lake" ∷ "build" ∷ "ir" ∷ "LeanSphincs" ∷ []

abbrev pub built : Components → Files → Tree
built at files =
    place (at ++ ("Benchmark" ∷ [])) (keep is_challenge_artifact files)
    ++ ((at ++ ("Submission" ∷ []), folder) ∷ [])

abbrev pub written : List ℕ → Tree
written source =
    ("LeanSphincs" ∷ "Benchmark" ∷ "Challenge.lean" ∷ [], file source)
    ∷ (".lake" ∷ "packages" ∷ [], link (".lake" ∷ "packages" ∷ []))
    ∷ []

abbrev pub joined : Tree → Bundle → List ℕ → Tree → Tree → Tree → Tree → Tree → Tree → Tree
joined top submission source comparator scripts benchmark config lib ir =
    top
    ++ (benchmark
        ++ (place at_submission (flat submission)
            ++ (written source
                ++ (config
                    ++ (lib
                        ++ (ir ++ ((("home" ∷ [], folder) ∷ []) ++ (comparator ++ scripts))))))))

abbrev pub tree_of : Parts → List ℕ → Tree
tree_of t source =
    joined t.top t.submission source t.comparator t.scripts
      (place at_benchmark (keep is_challenge t.benchmark))
      (place (".lake" ∷ "config" ∷ []) (keep nothing t.config)) (built lib_facet t.lib)
      (built ir_facet t.ir)

abbrev pub top_names : List String
top_names = "lakefile.toml" ∷ "lake-manifest.json" ∷ "lean-toolchain" ∷ "LeanSphincs.lean" ∷ []

abbrev pub script_names : List String
script_names = "strict-landrun.py" ∷ "sandbox_profile.py" ∷ "check-axioms.lean" ∷ []

abbrev pub IsCopied : Checkout → Bundle → Parts → Type 0
IsCopied root bundle t =
    (copy_files root [] top_names ≡ ok t.top)
    × (materialize false bundle ≡ ok t.submission)
    × (copy_files root ("benchmark" ∷ []) ("comparator.json" ∷ []) ≡ ok t.comparator)
    × (copy_files root ("scripts" ∷ []) script_names ≡ ok t.scripts)

pub prepare_project_inv :
    (root : Checkout) (exists : Bool) (bundle : Bundle) (source : List ℕ) (tree : Tree)
    → prepare_project root exists bundle source ≡ ok tree
    → (t : Parts) × IsCopied root bundle t × (tree ≡ tree_of t source)
unfolding prepare_project
prepare_project_inv root exists bundle source tree h =
    let (_, h₁) = raise_if_then exists _ _ h in
    let (top, e₁, h₂) = bind-eq-ok (copy_files root [] top_names) _ h₁ in
    let (_, e₂, h₃) = bind-eq-ok (copytree root at_benchmark is_challenge) _ h₂ in
    let (submission, e₃, h₄) = bind-eq-ok (materialize false bundle) _ h₃ in
    let (_, e₄, h₅) = bind-eq-ok (copytree_existing root (".lake" ∷ "config" ∷ []) nothing) _ h₄ in
    let (b₅, e₅, h₆) = bind-eq-ok (copy_facet root ("lib" ∷ "lean" ∷ [])) _ h₅ in
    let (b₆, e₆, h₇) = bind-eq-ok (copy_facet root ("ir" ∷ [])) _ h₆ in
    let (comparator, e₇, h₈) =
      bind-eq-ok (copy_files root ("benchmark" ∷ []) ("comparator.json" ∷ [])) _ h₇ in
    let (scripts, e₈, h₉) = bind-eq-ok (copy_files root ("scripts" ∷ []) script_names) _ h₈ in
    let (benchmark, s₂) = copytree_inv root at_benchmark is_challenge e₂ in
    let (config, s₄) = existing_inv root (".lake" ∷ "config" ∷ []) nothing e₄ in
    let (lib, s₅) = facet_inv root ("lib" ∷ "lean" ∷ []) e₅ in
    let (ir, s₆) = facet_inv root ("ir" ∷ []) e₆ in
    (
      record {
        top = top;
        benchmark = benchmark;
        submission = submission;
        config = config;
        lib = lib;
        ir = ir;
        comparator = comparator;
        scripts = scripts;
      },
      (e₁, e₃, e₇, e₈),
      sym (ok-injective _ _ h₉)
          ∙ (ap₂ (λ b c. joined top submission source comparator scripts b c b₅ b₆) s₂ s₄
              ∙ ap₂
                  (λ l i.
                    joined top submission source comparator scripts
                      (place at_benchmark (keep is_challenge benchmark))
                      (place (".lake" ∷ "config" ∷ []) (keep nothing config)) l i)
                  s₅ s₆),
    )

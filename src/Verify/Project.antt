-- ===== src/Verify/Project.antt =====
-- `prepare_project` of scripts/verify_submission.py: what a new project directory holds.
pub mod Under
pub mod Parts
pub mod Assembly
pub mod Clean
use text.Mathlib.Text.{◌==◌ as str_eq}
use leansphincs.Base.{
  ℕ, String, Bool, true, false, ◌||◌, List, [], ◌∷◌, ◌++◌, if◌then◌else◌, Result, ok, os_error,
  ◌>>=◌, ◌>>◌, raise_if,
}
use leansphincs.Base.Prefix.{starts_with}
use leansphincs.Bundle.{Bundle, materialize}

-- A path by its components.
abbrev pub Components : Type 0
Components = List String

pub data Entry : Type 0 where
  file : List ℕ → Entry
  link : Components → Entry
  folder : Entry

abbrev pub Tree : Type 0
Tree = List (Components × Entry)

-- The files below a directory, by their paths from it.
abbrev pub Files : Type 0
Files = List (Components × List ℕ)

-- The checkout: the read of a file, the walk of a directory, and `exists`.
pub record Checkout : Type 0 where
  pub read : Components → Result (List ℕ)
  pub walk : Components → Result Files
  pub exists : Components → Bool

-- A component of the path has an ignored name: then `copytree` leaves it out, or a directory above it.
abbrev pub is_ignored : (String → Bool) → Components → Bool
is_ignored ignored [] = false
is_ignored ignored (c ∷ cs) = ignored c || is_ignored ignored cs

unfoldable pub keep : (String → Bool) → Files → Files
keep ignored [] = []
keep ignored ((path, bytes) ∷ files) =
    let rest = keep ignored files in if is_ignored ignored path then rest else (path, bytes) ∷ rest

abbrev pub is_challenge : String → Bool
is_challenge name = str_eq name "Challenge.lean"

-- The pattern `Challenge.*`.
abbrev pub is_challenge_artifact : String → Bool
is_challenge_artifact name = starts_with "Challenge." name

abbrev pub nothing : String → Bool
nothing name = false

unfoldable pub place : Components → Files → Tree
place to [] = []
place to ((path, bytes) ∷ files) = (to ++ path, file bytes) ∷ place to files

-- The files of a bundle, which is flat.
unfoldable pub flat : Bundle → Files
flat [] = []
flat ((name, bytes) ∷ bundle) = (name ∷ [], bytes) ∷ flat bundle

module _ (root : Checkout) where
  -- `shutil.copytree(ROOT / path, project / path, ignore=…)`
  abbrev pub copytree : Components → (String → Bool) → Result Tree
  copytree path ignored = root.walk path >>= (λ files. ok (place path (keep ignored files)))

  abbrev pub copytree_existing : Components → (String → Bool) → Result Tree
  copytree_existing path ignored = if root.exists path then copytree path ignored else ok []

  -- `for name in (…): shutil.copy2(ROOT / source / name, project / name)`
  unfoldable pub copy_files : Components → List String → Result Tree
  copy_files source [] = ok []
  copy_files source (name ∷ names) = do
    bytes ← root.read (source ++ (name ∷ []))
    rest ← copy_files source names
    ok ((name ∷ [], file bytes) ∷ rest)

  abbrev pub build_of : Components → Components
  build_of facet = ".lake" ∷ "build" ∷ facet

  -- The body of the loop over the facets.
  abbrev pub copy_facet : Components → Result Tree
  copy_facet facet =
      copytree_existing (build_of (facet ++ ("LeanSphincs" ∷ "Benchmark" ∷ [])))
        is_challenge_artifact
      >>= (λ cached.
          ok (cached ++ ((build_of (facet ++ ("LeanSphincs" ∷ "Submission" ∷ [])), folder) ∷ [])))

  -- The project directory is new, so that no copy meets an entry. Left out are writes that fail, the
  -- directories above an entry, and the mode of strict-landrun.py.
  unfoldable pub prepare_project : Bool → Bundle → List ℕ → Result Tree
  prepare_project exists bundle source = do
    raise_if exists (os_error "File exists")
    top ←
        copy_files []
          ("lakefile.toml" ∷ "lake-manifest.json" ∷ "lean-toolchain" ∷ "LeanSphincs.lean" ∷ [])
    benchmark ← copytree ("LeanSphincs" ∷ "Benchmark" ∷ []) is_challenge
    submission ← materialize false bundle
    config ← copytree_existing (".lake" ∷ "config" ∷ []) nothing
    lib ← copy_facet ("lib" ∷ "lean" ∷ [])
    ir ← copy_facet ("ir" ∷ [])
    comparator ← copy_files ("benchmark" ∷ []) ("comparator.json" ∷ [])
    scripts ←
        copy_files ("scripts" ∷ [])
          ("strict-landrun.py" ∷ "sandbox_profile.py" ∷ "check-axioms.lean" ∷ [])
    ok (
        top
        ++ (benchmark
            ++ (place ("LeanSphincs" ∷ "Submission" ∷ []) (flat submission)
                ++ ((("LeanSphincs" ∷ "Benchmark" ∷ "Challenge.lean" ∷ [], file source)
                      ∷ (".lake" ∷ "packages" ∷ [], link (".lake" ∷ "packages" ∷ []))
                      ∷ [])
                    ++ (config
                        ++ (lib
                            ++ (ir
                                ++ ((("home" ∷ [], folder) ∷ []) ++ (comparator ++ scripts)))))))))

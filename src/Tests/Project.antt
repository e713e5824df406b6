-- ===== src/Tests/Project.antt =====
-- `prepare_project` of scripts/verify_submission.py on a checkout with stale artifacts.
use leansphincs.Base.{◌≡◌, refl, true, false, [], ◌∷◌, ok, codes, Result, err}
use leansphincs.Base.Prefix.{starts_with}
use leansphincs.Bundle.{Bundle, materialize, write_all, write_new, find}
use leansphincs.Verify.Project.{
  Checkout, Tree, Files, file, folder, keep, place, flat, copy_files, prepare_project,
}
use leansphincs.Verify.Project.Under.{under}
use leansphincs.Verify.Project.Clean.{IsFresh, prepare_project-IsClean}

-- Each directory has a module and a challenge.
abbrev listing : Files
listing =
    ("Game.olean" ∷ [], 1 ∷ [])
    ∷ ("Challenge.olean" ∷ [], 2 ∷ [])
    ∷ ("Challenge.lean" ∷ [], 3 ∷ [])
    ∷ []

abbrev checkout : Checkout
checkout = record { read = λ path. ok (7 ∷ []); walk = λ path. ok listing; exists = λ path. true }

abbrev bundle : Bundle
bundle = ("Scheme.lean", codes "def") ∷ ("sigma.txt", codes "12") ∷ []

abbrev tree_or : Result Tree → Tree
tree_or (ok t) = t
tree_or (err e) = []

abbrev project : Tree
project = tree_or (prepare_project checkout false bundle (codes "theorem"))

project_run : prepare_project checkout false bundle (codes "theorem") ≡ ok project
unfolding prepare_project copy_files keep place flat starts_with materialize write_all write_new
    find
project_run = refl

prepare_project-IsClean_example :
    ((files : Bundle) × (materialize false bundle ≡ ok files)
      × (under ("LeanSphincs" ∷ "Submission" ∷ []) project ≡ place [] (flat files)))
    × (under ("LeanSphincs" ∷ "Benchmark" ∷ "Challenge.lean" ∷ []) project
        ≡ ([], file (codes "theorem")) ∷ [])
    × (under (".lake" ∷ "build" ∷ "lib" ∷ "lean" ∷ "LeanSphincs" ∷ "Submission" ∷ []) project
        ≡ ([], folder) ∷ [])
    × (under (".lake" ∷ "build" ∷ "ir" ∷ "LeanSphincs" ∷ "Submission" ∷ []) project
        ≡ ([], folder) ∷ [])
    × IsFresh (under (".lake" ∷ "build" ∷ []) project)
prepare_project-IsClean_example =
    prepare_project-IsClean checkout false bundle (codes "theorem") project project_run

-- ===== src/Verify/World.antt =====
-- What scripts/verify_submission.py reads from its surroundings, and its checks of them:
-- harness_manifest, check_dependencies and the digests of the tools.
use text.Mathlib.Text.{◌==◌ as str_eq}
use leansphincs.Base.{
  ℕ, String, ◌<>◌, Bool, true, false, not, ◌&&◌, ◌||◌, List, [], ◌∷◌, ◌==◌, Result, ok,
  runtime_error, ◌>>=◌, ◌>>◌, raise_if,
}
use leansphincs.Base.Int.{ℤ}
use leansphincs.Base.Value.{Value, Fields}
use leansphincs.Bundle.{Bundle, FileEntry, Folder, Manifest}
use leansphincs.Verify.Report.{Table}

-- An entry of lake-manifest.json.
pub record Package : Type 0 where
  pub name : String
  pub type : String
  pub rev : String

-- `git rev-parse HEAD`, stripped, and `git status --porcelain`, in the directory of a package.
pub record Git : Type 0 where
  pub head : String → Result String
  pub dirty : String → Result String

-- A program that `run` starts. Its log and its limits are those of the code.
pub data Program : Type 0 where
  trusted_build axiom_audit compiler comparator : Program

-- What is looked at twice, before the build and when it is over.
pub record Look : Type 0 where
  pub harness : Result Bundle
  pub packages : Result (List Package)
  pub git : Git
  pub digest : String → Result String

-- `prepare_project` and the sandbox.json behind it get the bundle and the text of the template.
-- A call that leaves nothing but its effect is the `Unit` that it returns, or what it raises. A
-- signal shows as `keyboard_interrupt` from the call that it meets; `at_score` is one that comes
-- while the score is computed.
pub record World : Type 0 where
  pub submission : Result Folder
  pub sha256 : List ℕ → String
  pub encode : List (String × FileEntry) → List ℕ
  pub loads : List ℕ → Result Value
  pub write_source : Result (Unit {0})
  pub check_imports : Bundle → Result (ℤ × String)
  pub resource_profile : Result Value
  pub scoring_profile : Result Value
  pub profile_digest : Fields → String
  pub before : Look
  pub lean_prefix : Result String
  pub check_sandbox : Result Value
  pub prepare_project : Bundle → List ℕ → Result (Unit {0})
  pub run : Program → Result ℤ
  pub prepare_frozen : Bundle → List ℕ → Result (Unit {0})
  pub freeze_artifacts : List String → Result Bundle
  pub write_sandbox : Result (Unit {0})
  pub snapshot : Result Folder
  pub capture_artifacts : List String → Result Bundle
  pub after : Look
  pub at_score : Result (Unit {0})
  pub write_receipt : Result (Unit {0})

unfoldable pub check_package : Git → Package → Result String
check_package git p = do
  revision ← git.head p.name
  raise_if (not (str_eq p.type "git") || not (str_eq revision p.rev))
      (runtime_error ("dependency pin mismatch: " <> p.name))
  dirty ← git.dirty p.name
  raise_if (not (str_eq dirty "")) (runtime_error ("tracked dependency changes: " <> p.name))
  ok revision

-- The loop, with the revisions as a table. Lake's package names are distinct.
unfoldable pub check_packages : Git → List Package → Result Table
check_packages git [] = ok []
check_packages git (p ∷ ps) = do
  revision ← check_package git p
  rest ← check_packages git ps
  ok ((p.name, revision) ∷ rest)

unfoldable pub check_dependencies : Look → Result Table
check_dependencies look = look.packages >>= check_packages look.git

-- `{name: digest(path) for name, path in tool_paths.items()}`
unfoldable pub digests : (String → Result String) → List String → Result Table
digests digest [] = ok []
digests digest (name ∷ names) = do
  d ← digest name
  rest ← digests digest names
  ok ((name, d) ∷ rest)

-- `==` on two tables, whose names are in the order of the code or of the manifest.
abbrev pub table_eq : Table → Table → Bool
table_eq [] [] = true
table_eq ((n, d) ∷ t) ((m, e) ∷ u) = str_eq n m && (str_eq d e && table_eq t u)
table_eq _ _ = false

abbrev pub files_eq : List (String × FileEntry) → List (String × FileEntry) → Bool
files_eq [] [] = true
files_eq ((n, d) ∷ t) ((m, e) ∷ u) =
    str_eq n m && ((d.size == e.size) && (str_eq d.sha256 e.sha256 && files_eq t u))
files_eq _ _ = false

abbrev pub manifest_eq : Manifest → Manifest → Bool
manifest_eq a b = str_eq a.sha256 b.sha256 && files_eq a.files b.files

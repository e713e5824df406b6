-- ===== src/Sandbox.antt =====
-- scripts/sandbox_profile.py and scripts/strict-landrun.py: the command lines that confine a child.
pub mod Writes
pub mod Launch
pub mod Unit
use text.Mathlib.Text.{◌==◌ as str_eq}
use Prim.Native.Char.{code}
use leansphincs.Base.{
  ℕ, String, ◌<>◌, Bool, true, false, not, ◌&&◌, ◌||◌, List, [], ◌∷◌, ◌++◌, Option, none, some, ltb,
  leb, ◌==◌, if◌then◌else◌, Result, ok, err, value_error, runtime_error, ◌>>=◌, ◌>>◌, raise_if,
}
use leansphincs.Base.Int.{ℤ, pos, negsuc}
use leansphincs.Base.Decimal.{decimal}
use leansphincs.Base.Sort.{sort}
use leansphincs.Base.Names.{name_le}

-- What the host says: `landlock` is the result of the system call.
pub record Host : Type 0 where
  pub system : String
  pub machine : String
  pub landlock : ℤ
  pub exists : String → Bool
  pub packages : List String
  pub environ : String → Bool

abbrev pub at_least_eight : ℤ → Bool
at_least_eight (pos n) = leb 8 n
at_least_eight (negsuc n) = false

-- The number in the message is left out.
unfoldable pub landlock_abi : Host → Result ℤ
landlock_abi host = do
  raise_if
      (not (str_eq host.system "Linux")
        || (not (str_eq host.machine "x86_64") && not (str_eq host.machine "aarch64")))
      (runtime_error "verified sandbox profile requires Linux x86_64 or aarch64")
  raise_if (not (at_least_eight host.landlock)) (runtime_error "Landlock ABI >= 8 is required")
  ok host.landlock

-- An option of landrun, and the words that stand for it.
pub data Grant : Type 0 where
  best_effort ldd add_exec : Grant
  ro rox rw_path env : String → Grant

abbrev pub words : Grant → List String
words best_effort = "--best-effort" ∷ []
words ldd = "--ldd" ∷ []
words add_exec = "--add-exec" ∷ []
words (ro path) = "--ro" ∷ path ∷ []
words (rox path) = "--rox" ∷ path ∷ []
words (rw_path path) = "--rw" ∷ path ∷ []
words (env key) = "--env" ∷ key ∷ []

abbrev pub all_words : List Grant → List String
all_words [] = []
all_words (g ∷ gs) = words g ++ all_words gs

-- `s.replace(".", "/")`
unfoldable pub dots_to_slashes : String → String
dots_to_slashes String.[] = String.[]
dots_to_slashes (String.◌∷◌ c s) =
    let rest = dots_to_slashes s in if code c == b'.' then "/" <> rest else String.◌∷◌ c rest

unfoldable pub existing : (String → Bool) → List String → List Grant
existing exists [] = []
existing exists (path ∷ paths) =
    let rest = existing exists paths in if exists path then rox path ∷ rest else rest

unfoldable pub readable : List String → List Grant
readable [] = []
readable (path ∷ paths) = ro path ∷ readable paths

unfoldable pub exported : (String → Bool) → List String → List Grant
exported environ [] = []
exported environ (key ∷ keys) =
    let rest = exported environ keys in if environ key then env key ∷ rest else rest

-- The two directories that a build writes.
abbrev pub build_grants : Bool → String → String → List Grant
build_grants true root prefix =
    rw_path (root <> ("/.lake/build/lib/lean/" <> dots_to_slashes prefix))
    ∷ rw_path (root <> ("/.lake/build/ir/" <> dots_to_slashes prefix))
    ∷ []
build_grants false root prefix = []

-- `host.packages` is `sorted((root / ".lake/packages").iterdir())`, resolved.
unfoldable pub grants : Host → String → String → String → Bool → String → List Grant
grants host root lean exporter build prefix =
    (best_effort ∷ ro root ∷ rox lean ∷ rox exporter ∷ rox "/usr/bin/git" ∷ ldd ∷ add_exec ∷ [])
    ++ (existing host.exists ("/lib" ∷ "/lib64" ∷ "/usr/lib" ∷ [])
        ++ ((rw_path "/dev/null" ∷ ro "/dev/urandom" ∷ [])
            ++ (readable host.packages
                ++ (exported host.environ
                      ("PATH" ∷ "HOME" ∷ "LEAN_PATH" ∷ "LEAN_ABORT_ON_PANIC" ∷ [])
                    ++ build_grants build root prefix))))

unfoldable pub landrun_args :
    Host → String → String → String → String → List String → Bool → String → Result (List String)
landrun_args host binary root lean exporter command build prefix = do
  abi ← landlock_abi host
  ok ((binary ∷ all_words (grants host root lean exporter build prefix)) ++ ("--" ∷ command))

-- sandbox.json, with the defaults of the fields that it may leave out.
pub record Config : Type 0 where
  pub lean_prefix : String
  pub exporter : String
  pub landrun : String
  pub verification_only : Bool
  pub challenge_module : String
  pub solution_module : String
  pub submission_prefix : String

-- `args[args.index("--") + 1:]`
unfoldable pub behind_delimiter : List String → Option (List String)
behind_delimiter [] = none
behind_delimiter (a ∷ args) =
    let rest = behind_delimiter args in if str_eq a "--" then some args else rest

abbrev pub lake_of : Config → String
lake_of config = config.lean_prefix <> "/bin/lake"

-- `command[1:] in (["build", …], ["build", …])`
abbrev pub is_target : Config → List String → Bool
is_target config (verb ∷ target ∷ []) =
    str_eq verb "build"
    && (str_eq target config.challenge_module || str_eq target config.solution_module)
is_target config _ = false

abbrev pub is_lake : Config → String → Bool
is_lake config program = str_eq program "lake" || str_eq program (lake_of config)

abbrev pub is_checker : Config → String → Bool
is_checker config program =
    str_eq program (config.lean_prefix <> "/bin/leanchecker") || str_eq program config.exporter

-- The tests on the command, and the command that runs.
unfoldable pub admit_command : Config → String → List String → Result (List String)
admit_command config program rest =
    if is_lake config program
    then (raise_if config.verification_only
          (value_error "build forbidden during prebuilt verification")
        >> (raise_if (not (is_target config rest)) (value_error "unexpected Lake target")
            >> ok (lake_of config ∷ rest)))
    else (raise_if (not (is_checker config program)) (value_error "unexpected comparator child")
        >> ok (program ∷ rest))

abbrev pub is_build : Config → List String → Bool
is_build config [] = false
is_build config (program ∷ rest) = str_eq program (lake_of config)

unfoldable pub admit : Config → Option (List String) → Result (List String)
admit config none = err (value_error "missing command delimiter")
admit config (some []) = err (value_error "missing command")
admit config (some (program ∷ rest)) = admit_command config program rest

-- `main`, up to the `execv` of its result. `root` is the working directory, resolved.
unfoldable pub launch : Host → String → Config → List String → Result (List String)
launch host root config args = do
  command ← admit config (behind_delimiter args)
  landrun_args host config.landrun root config.lean_prefix config.exporter command
      (is_build config command) config.submission_prefix

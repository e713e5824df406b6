-- ===== src/Tests/Sandbox.antt =====
-- scripts/strict-landrun.py on two command lines, and the pins of scripts/verify_submission.py.
use text.Mathlib.Text.{◌==◌ as str_eq}
use leansphincs.Base.{◌≡◌, refl, ◌↔◌, String, true, List, [], ◌∷◌, ◌++◌, ok, err, value_error, All}
use leansphincs.Base.Int.{pos}
use leansphincs.Sandbox.{
  Host, Grant, all_words, Config, launch, landrun_args, landlock_abi, grants, existing, readable,
  exported, behind_delimiter, admit, admit_command,
}
use leansphincs.Sandbox.Writes.{writes}
use leansphincs.Sandbox.Launch.{IsLaunched, launch_iff, launch-writes}
use leansphincs.Verify.World.{Look, Package, check_dependencies}
use leansphincs.Verify.Pins.{IsPinned, pins, check_dependencies_iff}

abbrev pub host : Host
host = record {
  system = "Linux";
  machine = "x86_64";
  landlock = pos 9;
  exists = λ path. str_eq path "/lib";
  packages = "/p/mathlib" ∷ [];
  environ = λ key. str_eq key "PATH";
}

abbrev frozen : Config
frozen = record {
  lean_prefix = "/lean";
  exporter = "/exporter";
  landrun = "/landrun";
  verification_only = true;
  challenge_module = "LeanSphincs.Benchmark.Challenge";
  solution_module = "LeanSphincs.Submission.Solution";
  submission_prefix = "LeanSphincs.Submission";
}

abbrev args : List String
args = "--rw" ∷ "/" ∷ "--" ∷ "/exporter" ∷ "Challenge" ∷ []

abbrev argv : List String
argv =
    "/landrun" ∷ "--best-effort" ∷ "--ro" ∷ "/r" ∷ "--rox" ∷ "/lean" ∷ "--rox" ∷ "/exporter"
    ∷ "--rox" ∷ "/usr/bin/git" ∷ "--ldd" ∷ "--add-exec" ∷ "--rox" ∷ "/lib" ∷ "--rw" ∷ "/dev/null"
    ∷ "--ro" ∷ "/dev/urandom" ∷ "--ro" ∷ "/p/mathlib" ∷ "--env" ∷ "PATH" ∷ "--" ∷ "/exporter"
    ∷ "Challenge" ∷ []

launch_run : launch host "/r" frozen args ≡ ok argv
unfolding launch landrun_args landlock_abi grants existing readable exported behind_delimiter admit
    admit_command
launch_run = refl

-- A build is refused once the artifacts are frozen.
build_run :
    launch host "/r" frozen ("--" ∷ "lake" ∷ "build" ∷ "LeanSphincs.Submission.Solution" ∷ [])
    ≡ err (value_error "build forbidden during prebuilt verification")
unfolding launch behind_delimiter admit admit_command
build_run = refl

launch_iff_example :
    (launch host "/r" frozen args ≡ ok argv) ↔ IsLaunched host "/r" frozen args argv
launch_iff_example = launch_iff host "/r" frozen args argv

launch-writes_example :
    (gs : List Grant) × (command : List String) × (argv
      ≡ ("/landrun" ∷ all_words gs) ++ ("--" ∷ command))
    × (writes gs ≡ "/dev/null" ∷ [])
launch-writes_example = launch-writes host "/r" frozen args argv refl launch_run

abbrev look : Look
look = record {
  harness = ok [];
  packages = ok (record { name = "mathlib"; type = "git"; rev = "ab" } ∷ []);
  git = record { head = λ name. ok "ab"; dirty = λ name. ok "" };
  digest = λ name. ok name;
}

check_dependencies_iff_example : (check_dependencies look ≡ ok (("mathlib", "ab") ∷ [])) ↔ (
    (ps : List Package) × (look.packages ≡ ok ps)
    × All (IsPinned look.git) ps
    × (("mathlib", "ab") ∷ [] ≡ pins ps))
check_dependencies_iff_example = check_dependencies_iff look (("mathlib", "ab") ∷ [])

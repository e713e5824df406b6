-- ===== src/Verify/Checks.antt =====
-- `check_integrity` of scripts/verify_submission.py.
use leansphincs.Base.{String, Bool, true, not, List, Option, none, some, runtime_error, raise_if}
use leansphincs.Bundle.{Manifest, capture}
use leansphincs.Verify.Report.{Table, Report, Run, ◌>>=◌, ◌>>◌, give, call}
use leansphincs.Verify.World.{World, check_dependencies, digests, table_eq, manifest_eq}
use leansphincs.Verify.Stages.{tool_names, manifest_of, harness_manifest}

module _ (w : World) where
  -- The comparison with a field of the report. The fields are set when this is called.
  abbrev pub differs : Option Manifest → Manifest → Bool
  differs none m = true
  differs (some n) m = not (manifest_eq m n)

  abbrev pub table_differs : Option Table → Table → Bool
  table_differs none t = true
  table_differs (some u) t = not (table_eq t u)

  -- `"artifacts" in report and …`
  unfoldable pub check_artifacts : Option Manifest → List String → Run (Unit {0})
  check_artifacts none modules = give tt
  check_artifacts (some m) modules = do
    artifacts ← call (w.capture_artifacts modules)
    call (
        raise_if (not (manifest_eq (manifest_of w artifacts) m))
          (runtime_error "artifact snapshot changed during verification"))

  -- `check_integrity`, with the report that it is given.
  abbrev pub compare_with : Report → Bool → Run (Unit {0})
  compare_with report insecure = do
    snapshot ← call (capture w.snapshot)
    call (
        raise_if (differs report.submission (manifest_of w snapshot))
          (runtime_error "snapshot changed during verification; no score issued"))
    check_artifacts report.artifacts report.artifact_modules
    harness ← call (harness_manifest w w.after)
    call (
        raise_if (differs report.harness harness)
          (runtime_error "harness changed during verification; no score issued"))
    revisions ← call (check_dependencies w.after)
    call (
        raise_if (table_differs report.dependencies revisions)
          (runtime_error "dependencies changed during verification; no score issued"))
    tools ← call (digests w.after.digest (tool_names insecure))
    call (
        raise_if (table_differs report.tools tools)
          (runtime_error "tool binaries changed during verification; no score issued"))

  unfoldable pub check_integrity : Bool → Run (Unit {0})
  check_integrity insecure r = compare_with r insecure r

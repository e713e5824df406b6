-- ===== src/Verify/Stages.antt =====
-- `_verify_admitted` of scripts/verify_submission.py, stage by stage.
use text.Mathlib.Text.{◌==◌ as str_eq}
use leansphincs.Base.{
  ℕ, zero, String, Bool, true, false, not, List, [], ◌∷◌, Option, none, some, codes, if◌then◌else◌,
  Result, ok, err, value_error, runtime_error, os_error, raise_if,
}
use leansphincs.Base.Int.{ℤ, pos}
use leansphincs.Base.Sort.{sort}
use leansphincs.Base.Names.{name_le}
use leansphincs.Base.Value.{Fields}
use leansphincs.Bundle.{Bundle, Manifest, capture, manifest, materialize, find}
use leansphincs.Bundle.Names.{ends_with_lean}
use leansphincs.Contract.Metrics.{Metrics, metrics}
use leansphincs.Contract.Render.{render}
use leansphincs.Eligibility.{Receipt, Kind, Binding, load_resource_profile, deployment_gates}
use leansphincs.Scoring.{claim_id, load_scoring_profile}
use leansphincs.Verify.Report.{
  Stage, source_policy, setup, sandbox_preflight, compilation, artifact_capture, comparison,
  verification_failed, Report, Run, ◌>>=◌, ◌>>◌, give, call, modify, enter,
}
use leansphincs.Verify.World.{
  World, Program, axiom_audit, compiler, comparator, Look, check_dependencies, digests,
}

abbrev pub is_zero : ℤ → Bool
is_zero (pos zero) = true
is_zero _ = false

-- `(root / name).read_bytes()` in the copy that was written.
abbrev pub read_copy : Bundle → String → Result (List ℕ)
read_copy files name = elim (find name files) [ none ↦ err (os_error name) | some bytes ↦ ok bytes ]

-- `Path(n).stem` of a name that ends in `.lean`
stem : String → String
stem String.[] = String.[]
stem (String.◌∷◌ c s) = if str_eq (String.◌∷◌ c s) ".lean" then String.[] else String.◌∷◌ c (stem s)

pub stems : Bundle → List String
stems [] = []
stems ((name, _) ∷ bundle) =
    let rest = stems bundle in if ends_with_lean (codes name) then stem name ∷ rest else rest

-- The names of `tool_paths`.
abbrev pub tool_names : Bool → List String
tool_names insecure =
    "comparator"
    ∷ "exporter"
    ∷ "lean"
    ∷ "lake"
    ∷ "leanchecker"
    ∷ (if insecure then [] else "landrun" ∷ [])

abbrev pub no_evidence : Kind → Option Binding
no_evidence k = none

-- What `deployment_gates` reads of no receipt, and of a report. No stage sets `executable_sha256`.
abbrev pub no_receipt : Receipt
no_receipt = record {
  claim_version = none;
  mathematical_verification = false;
  submission_sha256 = none;
  executable_sha256 = none;
}

abbrev pub receipt_of : Report → Receipt
receipt_of r = record {
  claim_version = some claim_id;
  mathematical_verification = r.mathematical_verification;
  submission_sha256 = elim r.submission [ none ↦ none | some m ↦ some m.sha256 ];
  executable_sha256 = none;
}

module _ (w : World) where
  abbrev pub manifest_of : Bundle → Manifest
  manifest_of = manifest w.sha256 w.encode

  abbrev pub harness_manifest : Look → Result Manifest
  harness_manifest look = elim look.harness [ err e ↦ err e | ok files ↦ ok (manifest_of files) ]

  -- From `stage = "capture"` to the metrics.
  unfoldable pub admit_source : Run (Bundle × Metrics)
  admit_source = do
    bundle ← call (capture w.submission)
    modify (λ (r : Report). record r { submission = some (manifest_of bundle) })
    enter source_policy
    call w.write_source
    files ← call (materialize false bundle)
    declared ← call (metrics w.loads (read_copy files))
    check ← call (w.check_imports files)
    call (raise_if (not (is_zero check.0)) (value_error check.1))
    modify (λ (r : Report). record r { metrics = some declared })
    give (bundle, declared)

  -- `stage = "setup"`
  unfoldable pub set_up : Bool → Run Fields
  set_up insecure = do
    enter setup
    harness ← call (harness_manifest w.before)
    modify (λ (r : Report). record r { harness = some harness })
    resources ← call w.resource_profile
    resources' ← call (load_resource_profile resources)
    modify (λ (r : Report). record r {
      resource_profile = some resources';
      deployment_gates = some (deployment_gates w.profile_digest resources' no_receipt no_evidence);
    })
    scoring ← call w.scoring_profile
    scoring' ← call (load_scoring_profile scoring)
    modify (λ (r : Report). record r { scoring_profile = some scoring' })
    revisions ← call (check_dependencies w.before)
    modify (λ (r : Report). record r { dependencies = some revisions })
    lean ← call w.lean_prefix
    tools ← call (digests w.before.digest (tool_names insecure))
    modify (λ (r : Report). record r { tools = some tools })
    give scoring'

  -- `stage = "sandbox_preflight"`
  unfoldable pub preflight : Bool → Run (Unit {0})
  preflight true = give tt
  preflight false = do
    enter sandbox_preflight
    answer ← call w.check_sandbox
    modify (λ (r : Report). record r { sandbox = some answer })

  -- `render(sigma, hverify, bound)`
  abbrev pub template : Bundle × Metrics → List ℕ
  template source = render source.1.0 source.1.1 source.1.2

  -- `stage = "trusted_build"`. `run` returns zero, or the template is refused.
  unfoldable pub build_template : Bundle × Metrics → Run (Unit {0})
  build_template source = do
    enter Stage.trusted_build
    call (w.prepare_project source.0 (template source))
    built ← call (w.run Program.trusted_build)
    call (
        raise_if (not (is_zero built))
          (runtime_error "trusted template build failed; see trusted-build.log"))
    audited ← call (w.run axiom_audit)
    call (
        raise_if (not (is_zero audited))
          (runtime_error "protected axiom audit failed; see axioms.log"))

  -- The branch of a compilation that succeeded.
  unfoldable pub compare_frozen : Bundle × Metrics → Run ℤ
  unfolding stems stem
  compare_frozen source = do
    enter artifact_capture
    call (w.prepare_frozen source.0 (template source))
    let modules = sort name_le (stems source.0)
    modify (λ (r : Report). record r { artifact_modules = modules })
    artifacts ← call (w.freeze_artifacts modules)
    modify (λ (r : Report). record r { artifacts = some (manifest_of artifacts) })
    call w.write_sandbox
    enter comparison
    call (w.run comparator)

  -- `if code: … else: …` behind the compilation.
  unfoldable pub judge : Bundle × Metrics → ℤ → Run ℤ
  judge source (pos zero) = compare_frozen source
  judge source code = do
    modify (λ (r : Report). record r { status = verification_failed })
    give code

  -- `stage = "compilation"`
  unfoldable pub compile_and_compare : Bundle × Metrics → Run ℤ
  compile_and_compare source = do
    enter compilation
    code ← call (w.run compiler)
    modify (λ (r : Report). record r { compilation_exit = some code })
    code' ← judge source code
    modify (λ (r : Report). record r { comparator_exit = some code' })
    give code'

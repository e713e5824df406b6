-- ===== src/Preflight.antt =====
-- scripts/check-sandbox.py: the probes that must pass before a job is accepted.
pub mod Enforced
use text.Mathlib.Text.{◌==◌ as str_eq}
use leansphincs.Base.{
  ℕ, String, ◌<>◌, Bool, true, false, not, List, [], ◌∷◌, Option, none, some, if◌then◌else◌, Result,
  ok, err, runtime_error, index_error, attribute_error, ◌>>=◌, ◌>>◌, raise_if,
}
use leansphincs.Base.Int.{ℤ}
use leansphincs.Base.Value.{Value, obj, str, int, Fields, field, end, field?}
use leansphincs.Sandbox.{Host, landlock_abi, landrun_args}
use leansphincs.Sandbox.Unit.{Environment, systemd_command}
use leansphincs.Verify.Stages.{is_zero}
use leansphincs.Verify.Process.{Child, run}

pub data Mode : Type 0 where
  compile verify : Mode

abbrev pub mode_text : Mode → String
mode_text compile = "compile"
mode_text verify = "verify"

abbrev pub is_compile : Mode → Bool
is_compile compile = true
is_compile verify = false

-- What the check meets: the host as `landrun_args` sees it, the temporary directory with its files
-- and its removal, and for each mode the unit's name, the process, and the lines of its log.
pub record Site : Type 0 where
  pub host : Host
  pub parent : String
  pub set_up : Result (Unit {0})
  pub remove : Result (Unit {0})
  pub hex : Mode → String
  pub child : Mode → Child
  pub read_log : Mode → Result (List String)
  pub loads : String → Result Value

abbrev pub is_passed : Option Value → Bool
is_passed (some (str s)) = str_eq s "passed"
is_passed _ = false

-- The report of a probe. `report.get` of what is no dict is an `AttributeError`.
abbrev pub confirmed : Value → Result Fields
confirmed (obj fs) =
    raise_if (not (is_passed (field? "probe" fs)))
      (runtime_error "sandbox probe did not confirm enforcement")
    >> ok fs
confirmed _ = err (attribute_error "object has no attribute 'get'")

-- `json.loads(log.read_text().splitlines()[0])`, and the test behind it.
abbrev pub confirm : (String → Result Value) → List String → Result Fields
confirm loads [] = err (index_error "list index out of range")
confirm loads (line ∷ lines) = loads line >>= confirmed

-- `{**base, **new}`
abbrev pub set_field : String → Value → Fields → Fields
set_field key value end = field key value end
set_field key value (field k v fs) =
    let rest = set_field key value fs in if str_eq key k then field k value fs else field k v rest

abbrev pub update : Fields → Fields → Fields
update base end = base
update base (field key value new) = update (set_field key value base) new

-- `with tempfile.TemporaryDirectory(…): …`
abbrev pub with_directory :
    {A : Type 0} → Result (Unit {0}) → Result (Unit {0}) → Result A → Result A
with_directory (err e) remove body = err e
with_directory (ok u) (err e) body = err e
with_directory (ok u) (ok v) body = body

module _ (s : Site) (lean exporter landrun : String) where
  abbrev pub root : String
  root = s.parent <> "/job"

  -- The command of a probe, behind landrun.
  abbrev pub probe_argv : Mode → Result (List String)
  probe_argv mode =
      landrun_args s.host landrun root lean exporter
        ("/usr/bin/python3"
          ∷ (root <> "/probe.py")
          ∷ (s.parent <> "/unreadable.txt")
          ∷ mode_text mode
          ∷ [])
        (is_compile mode) "LeanSphincs.Submission"

  abbrev pub environment : Environment
  environment =
      ("PATH", lean <> "/bin:/usr/bin:/bin") ∷ ("HOME", root <> "/home") ∷ ("LANG", "C.UTF-8") ∷ []

  -- The body of the loop. The log in the message is left out.
  unfoldable pub probe : Mode → Result Fields
  probe mode = do
    command ← probe_argv mode
    argv ← systemd_command (s.hex mode) command root environment 30
    code ← (run (s.child mode) argv).1
    lines ← s.read_log mode
    raise_if (not (is_zero code))
        (runtime_error "sandbox probe failed; refusing untrusted compilation")
    confirm s.loads lines

  abbrev pub answer : ℤ → Fields → Fields → Value
  answer abi compiled verified =
      let reports = field "compile" (obj compiled) (field "verify" (obj verified) end) in
      obj (
        update
          (field "profile" (str "leansphincs-linux-v1")
            (field "landlock_abi" (int abi) (field "phases" (obj reports) end)))
          compiled)

  -- The two rounds of the loop.
  unfoldable pub probes : ℤ → Result Value
  probes abi = do
    compiled ← probe compile
    verified ← probe verify
    ok (answer abi compiled verified)

  unfoldable pub check : Result Value
  check = do abi ← landlock_abi s.host; with_directory s.set_up s.remove (probes abi)

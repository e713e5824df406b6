-- ===== src/Verify/Service.antt =====
-- `stop_service` of scripts/verify_submission.py: the end of a transient unit.
pub mod Cleanup
use text.Mathlib.Text.{◌==◌ as str_eq}
use leansphincs.Base.{
  ℕ, ◌≡◌, refl, ap, ◌∙◌, ◌↔◌, ◌⊎◌, inl, inr, String, ◌<>◌, Bool, true, false, not, ◌&&◌, ◌||◌, List,
  [], ◌∷◌, Option, none, some, arith, if◌then◌else◌, Result, ok, err, runtime_error, os_error,
  Exception, ◌>>=◌, ◌>>◌, raise_if, bind-eq-ok, raise_if_then,
}
use leansphincs.Base.Value.{str_mem}
use leansphincs.Verify.Report.{Table}

-- What systemd and the kernel say of a unit. `fields` are the lines of `systemctl show` that have an
-- `=`, split at the first one; `returncode` says whether that command failed. `events` are the lines
-- of the cgroup's file: none when the file is gone.
pub record Service : Type 0 where
  pub stop : Result (Unit {0})
  pub show : Result (Bool × Table)
  pub events : String → Result (Option (List String))

-- `fields.get(key)`. A later line of the same key wins.
unfoldable pub field_of : String → Table → Option String
field_of key [] = none
field_of key ((k, v) ∷ t) = elim (field_of key t) [
  | some later ↦ some later
  | none ↦ if str_eq key k then some v else none
]

abbrev pub is_set : Option String → Bool
is_set none = false
is_set (some v) = true

abbrev pub is_value : Option String → String → Bool
is_value none v = false
is_value (some u) v = str_eq u v

-- The processes that are left in the group of the unit. A file that is gone is a group that is gone.
abbrev pub check_populated : String → Option (List String) → Result (Unit {0})
check_populated unit none = ok tt
check_populated unit (some lines) =
    raise_if (not (str_mem "populated 0" lines))
      (runtime_error ("service descendants remain: " <> unit))

-- `if group: …`
abbrev pub check_group :
    (String → Result (Option (List String))) → String → Option String → Result (Unit {0})
check_group events unit none = ok tt
check_group events unit (some group) =
    if str_eq group "" then ok tt else (events group >>= check_populated unit)

abbrev pub is_over : Table → Bool
is_over fields =
    is_value (field_of "ActiveState" fields) "inactive"
    || is_value (field_of "ActiveState" fields) "failed"

abbrev pub is_collected : Table → Bool
is_collected fields = is_value (field_of "LoadState" fields) "not-found"

-- The tests behind the first return.
unfoldable pub check_active : Service → String → Bool → Table → Result (Unit {0})
check_active service unit failed fields = do
  raise_if (failed || not (is_over fields)) (runtime_error ("service cleanup uncertain: " <> unit))
  check_group service.events unit (field_of "ControlGroup" fields)

abbrev pub has_states : Table → Bool
has_states fields =
    is_set (field_of "LoadState" fields)
    && is_set (field_of "ActiveState" fields)
    && is_set (field_of "ControlGroup" fields)

unfoldable pub stop_service : Service → String → Result (Unit {0})
stop_service service unit = do
  service.stop
  state ← service.show
  raise_if (not (has_states state.1))
      (runtime_error ("service cleanup uncertain: missing state for " <> unit))
  if is_collected state.1 then ok tt else check_active service unit state.0 state.1

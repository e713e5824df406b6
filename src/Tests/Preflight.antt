-- ===== src/Tests/Preflight.antt =====
-- scripts/check-sandbox.py with two probes that pass.
use leansphincs.Base.{◌≡◌, refl, [], ◌∷◌, ok, err, Result, if◌then◌else◌}
use leansphincs.Base.Decimal.{decimal}
use leansphincs.Base.Names.{name_le}
use leansphincs.Base.Prefix.{starts_with}
use leansphincs.Base.Sort.{sort, insert}
use leansphincs.Base.Value.{Value, null, str, obj, Fields, field, end}
use leansphincs.Sandbox.{
  landrun_args, landlock_abi, grants, existing, readable, exported, dots_to_slashes,
}
use leansphincs.Sandbox.Unit.{str_of, systemd_command}
use leansphincs.Verify.Service.{stop_service, check_active, field_of}
use leansphincs.Verify.Process.{run, clean_up, stop_units, units}
use leansphincs.Preflight.{compile, verify, is_compile, Site, probe, probes, check}
use leansphincs.Preflight.Enforced.{IsProbed, check-IsProbed}
use leansphincs.Tests.Process.{child}
use leansphincs.Tests.Sandbox.{host}

abbrev report : Fields
report = field "probe" (str "passed") end

abbrev site : Site
site = record {
  host = host;
  parent = "/t";
  set_up = ok tt;
  remove = ok tt;
  hex = λ mode. if is_compile mode then "0f" else "1e";
  child = λ mode. child;
  read_log = λ mode. ok ("{}" ∷ []);
  loads = λ line. ok (obj report);
}

abbrev value_of : Result Value → Value
value_of (ok v) = v
value_of (err e) = null

abbrev verdict : Value
verdict = value_of (check site "/lean" "/exporter" "/landrun")

checked_run : check site "/lean" "/exporter" "/landrun" ≡ ok verdict
unfolding check probes probe landrun_args landlock_abi grants existing readable exported
    dots_to_slashes systemd_command str_of decimal sort insert name_le run clean_up stop_units units
    starts_with stop_service check_active field_of
checked_run = refl

check-IsProbed_example :
    IsProbed site "/lean" "/exporter" "/landrun" compile
    × IsProbed site "/lean" "/exporter" "/landrun" verify
check-IsProbed_example = check-IsProbed site "/lean" "/exporter" "/landrun" verdict checked_run

-- ===== src/Tests/Process.antt =====
-- `run`, `verify`, `systemd_command` and `write_receipt` of scripts/ on concrete calls.
use leansphincs.Base.{
  ◌≡◌, ◌↔◌, refl, ℕ, String, true, false, List, [], ◌∷◌, Option, none, some, All, Result, ok, err,
  codes, os_error, keyboard_interrupt, runtime_error, subprocess_error,
}
use leansphincs.Base.Int.{pos}
use leansphincs.Base.Decimal.{decimal}
use leansphincs.Base.Sort.{sort, insert}
use leansphincs.Base.Names.{name_le}
use leansphincs.Base.Prefix.{starts_with}
use leansphincs.Sandbox.Unit.{Environment, str_of, systemd_command}
use leansphincs.Verify.Service.{stop_service, check_active, field_of}
use leansphincs.Verify.Service.Cleanup.{IsStopped}
use leansphincs.Verify.Process.{
  Child, delivered, lookup_error, units, signal_group, stop_units, clean_up, run,
}
use leansphincs.Verify.Process.Stopped.{AllStopped, IsKilled, run_iff, run-IsKilled}
use leansphincs.Verify.Process.Confined.{unit_of, run-IsStopped}
use leansphincs.Verify.Outcomes.{verify_admitted}
use leansphincs.Verify.Admission.{Desk, verify}
use leansphincs.Verify.Report.{Report, accepted}
use leansphincs.Verify.Verdict.{Evidence}
use leansphincs.Verify.Command.{Line, main}
use leansphincs.Verify.Command.Exit.{main_iff}
use leansphincs.Verify.Interrupt.{
  Body, ended, moment, default_action, installed, play, termination_as_interrupt,
}
use leansphincs.Verify.Interrupt.Once.{termination_as_interrupt-seen}
use leansphincs.Verify.Admission.Lock.{verify-lock}
use leansphincs.Verify.Receipt.{Directory, Disk, write_receipt}
use leansphincs.Verify.Receipt.Atomic.{IsWhole, write_receipt-IsWhole}
use leansphincs.Tests.Verify.{service, good}

-- A compiler that exits with zero, and its unit stops.
abbrev pub child : Child
child = record {
  open_log = ok tt;
  popen = ok tt;
  wait = ok (pos 0);
  service = λ unit. service;
  kill = lookup_error;
  reap = ok tt;
}

-- The same after 4800 seconds.
abbrev slow : Child
slow = record child { wait = err (subprocess_error "timed out"); kill = delivered }

abbrev environment : Environment
environment = ("PATH", "/bin") ∷ ("HOME", "/h") ∷ []

abbrev command : List String
command = "lake" ∷ "build" ∷ []

abbrev words_of : Result (List String) → List String
words_of (ok words) = words
words_of (err e) = []

abbrev argv : List String
argv = words_of (systemd_command "0f" command "/p" environment 4800)

argv_run : systemd_command "0f" command "/p" environment 4800 ≡ ok argv
unfolding systemd_command
argv_run = refl

compiled_run : (run child argv).1 ≡ ok (pos 0)
unfolding run clean_up stop_units units stop_service check_active field_of systemd_command
    starts_with sort insert str_of decimal name_le
compiled_run = refl

run_iff_example : ((run child argv).1 ≡ ok (pos 0)) ↔ (
    (child.open_log ≡ ok tt)
    × (child.popen ≡ ok tt)
    × (child.wait ≡ ok (pos 0))
    × AllStopped child (units argv)
    × (signal_group child.kill ≡ ok tt)
    × (child.reap ≡ ok tt))
run_iff_example = run_iff child argv (pos 0)

run-IsKilled_example : IsKilled slow (run slow argv).0
run-IsKilled_example = run-IsKilled slow argv refl refl

run-IsStopped_example : (child.wait ≡ ok (pos 0)) × IsStopped (child.service (unit_of "0f"))
run-IsStopped_example =
    run-IsStopped "0f" command "/p" environment 4800 child argv (pos 0) argv_run compiled_run

abbrev desk : Desk
desk = record { mkdir = ok tt; opened = ok true; busy_directory = ok tt; busy_receipt = ok tt }

abbrev free : Option ℕ
free = none

main_iff_example : ((line : Line) × (main desk false good 7 free ≡ ok (line, pos 0))) ↔ (
    (desk.mkdir ≡ ok tt)
    × (desk.opened ≡ ok true)
    × (free ≡ none)
    × ((r : Report) × (verify_admitted good false ≡ ok r)
        × (r.status ≡ accepted)
        × Evidence good false))
main_iff_example = main_iff desk good false 7 free

-- A run that is interrupted while a child compiles, with a cleanup that a second interrupt would spoil.
abbrev compiling : Body ℕ
compiling =
    moment (ended (ok 1))
      (λ e. moment (ended (err e)) (λ _. ended (err (runtime_error "cleanup interrupted"))))

interrupted_once :
    (play installed compiling (true ∷ true ∷ [])).1 ≡ some (err (keyboard_interrupt "SIGTERM"))
unfolding play
interrupted_once = refl

termination_as_interrupt-seen_example :
    termination_as_interrupt default_action compiling (true ∷ true ∷ [])
    ≡ (default_action, some (err (keyboard_interrupt "SIGTERM")))
termination_as_interrupt-seen_example =
    termination_as_interrupt-seen default_action compiling (true ∷ true ∷ [])

verify-lock_example : (verify desk false good 7 (some 8)).1 ≡ some 8
verify-lock_example = verify-lock desk good false 7 (some 8) (λ h. cc)

-- A disk on which the flush fails half way.
abbrev disk : Disk
disk = record {
  mkstemp = ok ".receipt-x";
  fdopen = ok tt;
  written = [];
  write = ok tt;
  flushed = codes "{";
  flush = err (os_error "no space left");
  fsync = ok tt;
  close = ok tt;
  replace = ok tt;
  unlink = ok tt;
}

abbrev empty : Directory
empty n = none

write_receipt-IsWhole_example :
    let done = write_receipt disk "result.json" (ok (codes "{}")) empty in
    All (IsWhole "result.json" (codes "{}") empty) done.0
    × IsWhole "result.json" (codes "{}") empty done.1
    × (done.2 ≡ ok tt → done.1 "result.json" ≡ some (codes "{}"))
    × (disk.unlink ≡ ok tt → done.1 ".receipt-x" ≡ none)
write_receipt-IsWhole_example =
    write_receipt-IsWhole disk "result.json" (codes "{}") ".receipt-x" empty refl (λ h. cc)

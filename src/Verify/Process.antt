-- ===== src/Verify/Process.antt =====
-- `run` of scripts/verify_submission.py: a child process, its units and its process group.
pub mod Stopped
pub mod Confined
use leansphincs.Base.{String, Bool, List, [], ◌∷◌, ◌++◌, if◌then◌else◌, Exception, Result, ok, err}
use leansphincs.Base.Int.{ℤ}
use leansphincs.Base.Prefix.{starts_with, remove_prefix}
use leansphincs.Verify.Service.{Service, stop_service}

-- `os.killpg(…, SIGKILL)`. A group that is gone already is a `ProcessLookupError`, which is passed.
pub data Kill : Type 0 where
  delivered lookup_error : Kill
  refused : Exception → Kill

-- What the calls of `run` do: the open of the log, the start of the process, the wait with its
-- timeout, each unit as systemd shows it, the signal to the group, and the wait at the end. A timeout
-- and a signal to the verifier are waits that raise.
pub record Child : Type 0 where
  pub open_log : Result (Unit {0})
  pub popen : Result (Unit {0})
  pub wait : Result ℤ
  pub service : String → Service
  pub kill : Kill
  pub reap : Result (Unit {0})

-- The calls in their order, whether they return or raise.
pub data Event : Type 0 where
  opening starting waiting killing reaping : Event
  stopping : String → Event

abbrev pub Traced : Type 0 → Type 0
Traced A = List Event × Result A

abbrev pub act : {A : Type 0} → Event → Result A → Traced A
act e x = (e ∷ [], x)

infixl 5 ◌>>◌
abbrev pub ◌>>◌ : {A : Type 0} → Traced (Unit {0}) → Traced A → Traced A
(t, err e) >> m = (t, err e)
(t, ok u) >> (s, x) = (t ++ s, x)

-- `try: m finally: cleanup`. What the cleanup raises takes the place of the result.
abbrev pub finally_do : {A : Type 0} → Traced A → Traced (Unit {0}) → Traced A
finally_do (t, x) (s, err e) = (t ++ s, err e)
finally_do (t, x) (s, ok u) = (t ++ s, x)

-- `[arg.removeprefix("--unit=") for arg in command if arg.startswith("--unit=leansphincs-")]`
unfoldable pub units : List String → List String
units [] = []
units (arg ∷ args) =
    let rest = units args in
    if starts_with "--unit=leansphincs-" arg then remove_prefix "--unit=" arg ∷ rest else rest

abbrev pub signal_group : Kill → Result (Unit {0})
signal_group delivered = ok tt
signal_group lookup_error = ok tt
signal_group (refused e) = err e

module _ (child : Child) where
  unfoldable pub stop_units : List String → Traced (Unit {0})
  stop_units [] = ([], ok tt)
  stop_units (unit ∷ rest) =
      act (stopping unit) (stop_service (child.service unit) unit) >> stop_units rest

  -- The outer `finally`.
  unfoldable pub clean_up : List String → Traced (Unit {0})
  clean_up command =
      finally_do (stop_units (units command))
        (act killing (signal_group child.kill) >> act reaping child.reap)

  unfoldable pub run : List String → Traced ℤ
  run command = do
    act opening child.open_log
    act starting child.popen
    finally_do (act waiting child.wait) (clean_up command)

-- ===== src/Verify/Interrupt.antt =====
-- `termination_as_interrupt` of scripts/verify_submission.py: a SIGTERM becomes one interrupt.
pub mod Once
use leansphincs.Base.{
  Bool, true, false, List, [], ◌∷◌, Option, none, some, Exception, Result, keyboard_interrupt,
}

-- What the process has set for SIGTERM: what the caller had, where the default ends the process,
-- `SIG_IGN`, or `terminate`.
pub data Handler : Type 0 where
  default_action ignored installed : Handler

-- The body of a `with` block, with the moments at which a signal may be handled: there it goes on, or
-- it continues from what the handler raises, its own handlers and `finally` blocks included.
pub data Body (A : Type 0) : Type 0 where
  ended : Result A → Body A
  moment : Body A → (Exception → Body A) → Body A

-- `terminate`: what it sets, and what it raises.
abbrev pub terminate : Handler × Exception
terminate = (ignored, keyboard_interrupt "SIGTERM")

-- The body, where a signal arrives or not at each of its moments. A process that the signal ends has
-- no result.
unfoldable pub play : {A : Type 0} → Handler → Body A → List Bool → Handler × Option (Result A)
play h (ended x) arrivals = (h, some x)
play h (moment go stop) [] = play h go []
play h (moment go stop) (false ∷ arrivals) = play h go arrivals
play default_action (moment go stop) (true ∷ arrivals) = (default_action, none)
play ignored (moment go stop) (true ∷ arrivals) = play ignored go arrivals
play installed (moment go stop) (true ∷ arrivals) = play terminate.0 (stop terminate.1) arrivals

abbrev pub restore :
    {A : Type 0} → Handler → Handler × Option (Result A) → Handler × Option (Result A)
restore previous (h, x) = (previous, x)

abbrev pub termination_as_interrupt :
    {A : Type 0} → Handler → Body A → List Bool → Handler × Option (Result A)
termination_as_interrupt previous body arrivals = restore previous (play installed body arrivals)

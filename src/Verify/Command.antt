-- ===== src/Verify/Command.antt =====
-- The command line of scripts/verify_submission.py, behind its arguments.
pub mod Exit
use text.Mathlib.Text.{◌==◌ as str_eq}
use leansphincs.Base.{ℕ, String, Bool, false, Option, none, some, if◌then◌else◌, Result, ok, ◌>>=◌}
use leansphincs.Base.Int.{ℤ, pos}
use leansphincs.Verify.Report.{
  Status, infrastructure_error, verification_failed, accepted, source_rejected, interrupted, Report,
}
use leansphincs.Verify.World.{World}
use leansphincs.Verify.Admission.{BusyReport, Answer, ran, busy, Desk, verify}

abbrev pub status_name : Status → String
status_name infrastructure_error = "infrastructure_error"
status_name verification_failed = "verification_failed"
status_name accepted = "accepted"
status_name source_rejected = "source_rejected"
status_name interrupted = "interrupted"

-- The line that is printed. Left out is the path of the receipt.
pub record Line : Type 0 where
  pub status : String
  pub ranked : Bool
  pub error : Option String

unfoldable pub line_of : Answer → Line
line_of (ran r) = record { status = status_name r.status; ranked = false; error = r.error }
line_of (busy b) = record { status = b.status; ranked = false; error = some b.error }

unfoldable pub exit_status : Line → ℤ
exit_status line = if str_eq line.status "accepted" then pos 0 else pos 1

-- The line and the argument of `sys.exit`. A SIGTERM in the block is a call of the world that raises.
-- What `verify` raises leaves the script, with a traceback.
unfoldable pub main : Desk → Bool → World → ℕ → Option ℕ → Result (Line × ℤ)
main d insecure w p holder = do
  answer ← (verify d insecure w p holder).0
  ok (line_of answer, exit_status (line_of answer))

-- ===== src/Verify.antt =====
-- scripts/verify_submission.py: the verification of a submission, as a run over its report.
pub mod Report
pub mod World
pub mod Stages
pub mod Checks
pub mod Outcomes
pub mod Runs
pub mod Phases
pub mod Integrity
pub mod Keeping
pub mod Undecided
pub mod Verified
pub mod Verdict
pub mod Rejection
pub mod Pins
pub mod Snapshot
pub mod Admission
pub mod Interrupt
pub mod Command
pub mod Receipt
pub mod Project
pub mod Acceptance
pub mod Service
pub mod Process

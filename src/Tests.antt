-- ===== src/Tests.antt =====
-- Runs of the models on small inputs, and the theorems at concrete data.
mod Contract
mod Ots
mod Scoring
mod Bundle
mod Verify
mod Process
mod Project
mod Preflight
mod Acceptance
mod Sandbox
mod Artifacts

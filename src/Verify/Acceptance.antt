-- ===== src/Verify/Acceptance.antt =====
-- When a run of `_verify_admitted` is bound to accept.
pub mod Reach
pub mod Agreement
pub mod Served
pub mod Accepts

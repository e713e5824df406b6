-- ===== src/Contract.antt =====
-- scripts/benchmark_contract.py: the declared metrics of a submission and the theorem template.
pub mod Scalar
pub mod Terms
pub mod Render
pub mod Metrics

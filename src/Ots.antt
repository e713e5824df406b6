-- ===== src/Ots.antt =====
-- scripts/ots_experiments.py: exact counts of one-time-signature codebooks.
pub mod Poly
pub mod Cost
pub mod Pareto
pub mod Search
pub mod Rows
pub mod Selection
pub mod Families
pub mod Rank

-- ===== src/Verify.antt =====
-- internal/verify: the check of a run's ledger, evidence, artifacts and input snapshots.
pub mod Types
pub mod Chain
pub mod Provenance
pub mod Files
pub mod Verifier

-- ===== src/Run.antt =====
-- internal/run: the ledger of a run and the evidence that a run leaves.
pub mod Types
pub mod Recorder
pub mod Executor
pub mod Adapter
pub mod Prepare

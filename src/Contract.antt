-- ===== src/Contract.antt =====
-- internal/contract: the data model of a contract, its validation and its compilation from a brief.
pub mod Types
pub mod Graph
pub mod Validate
pub mod Brief
pub mod Compile
pub mod Structured

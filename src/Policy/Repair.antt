-- ===== src/Policy/Repair.antt =====
-- internal/policy: the governance of autonomous repairs, its documents and its decision.
pub mod Documents
pub mod GithubExecution
pub mod Types
pub mod Encoding
pub mod Strings
pub mod Governance
pub mod Canonical
pub mod Shapes
pub mod Schedule
pub mod Routing
pub mod ActionClass
pub mod Authority
pub mod Decision

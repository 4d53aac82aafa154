-- ===== src/Policy.antt =====
-- internal/policy: the decision engine for declared side effects and claims.
pub mod Types
pub mod Evaluator
pub mod Index
pub mod Explain
pub mod ClaimGate
pub mod Repair
pub mod Spine
pub mod CredentialChecklist
pub mod Mutation

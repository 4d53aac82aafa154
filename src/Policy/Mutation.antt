-- ===== src/Policy/Mutation.antt =====
-- internal/policy/governance_authority.go: the tickets that approve a class of mutations, and the live
-- policy for one low-risk change.
pub mod Fields
pub mod MultiRepo
pub mod Ticket
pub mod LivePolicy

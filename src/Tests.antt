-- ===== src/Tests.antt =====
-- Concrete runs of the modelled program, on inputs that the theorems' hypotheses hold for.
mod Samples
mod Decisions
mod Contracts
mod Closures
mod Gate
mod Ledgers
mod Evidence
mod Approvals
mod Runs
mod Requests
mod Repairs
mod Tickets
mod Briefs
mod Adapters

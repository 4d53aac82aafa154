-- ===== src/Policy/Repair/Documents.antt =====
-- internal/policy/autonomous_repair_architecture.go: the five documents that a write request carries.
-- A pointer is an `Option`; the lists are never nil, since the request's schema has been checked.
use ao_covenant.Base.{String, Bool, Option, List}
use ao_covenant.Integers.{ℤ}

abbrev pub architecture_run_envelope_schema : String
architecture_run_envelope_schema = "ao.architecture.autonomous-issue-repair.run-envelope.v1"

abbrev pub architecture_candidate_schema : String
architecture_candidate_schema = "ao.architecture.autonomous-issue-repair.candidate-decision.v1"

abbrev pub architecture_governance_schema : String
architecture_governance_schema = "ao.architecture.autonomous-issue-repair.governance-decision.v1"

abbrev pub architecture_reviewer_schema : String
architecture_reviewer_schema = "ao.architecture.autonomous-issue-repair.reviewer-independence.v1"

abbrev pub architecture_github_action_digest_schema : String
architecture_github_action_digest_schema =
    "ao.architecture.autonomous-issue-repair.github-action-digest.v1"

pub record ArchitectureRepairLoop : Type 0 where
  pub goal : String
  pub trigger : String
  pub discovery : String
  pub action : String
  pub verification : String
  pub state : String
  pub human_gates : String

pub record ArchitectureRepairTrigger : Type 0 where
  pub mode : String
  pub canonical_url : String
  pub repository : String
  pub default_branch : String
  pub pinned_base_commit : String

pub record ArchitectureRepairDiscovery : Type 0 where
  pub snapshot_limit : ℤ
  pub candidate_limit : ℤ
  pub selected_limit : ℤ

pub record ArchitectureRepairBudgets : Type 0 where
  pub wall_clock_seconds : ℤ
  pub clone_count : ℤ
  pub test_runs : ℤ
  pub retry_count : ℤ
  pub repair_count : ℤ
  pub publication_count : ℤ

pub record ArchitectureEnvelopeGovernance : Type 0 where
  pub ownership_class : String
  pub allowed_actions : List String
  pub denied_actions : List String
  pub sole_control_auto_merge_opt_in : Bool

pub record ArchitectureRepairRouting : Type 0 where
  pub default_branch : String
  pub pinned_base_commit : String
  pub fork_owner : Option String
  pub repair_branch : String
  pub protected_path_classes : List String
  pub required_checks : List String

pub record ArchitectureRepairLineage : Type 0 where
  pub kind : String
  pub predecessor_run_id : Option String
  pub predecessor_digest : Option String

pub record ArchitectureRunEnvelope : Type 0 where
  pub schema : String
  pub run_id : String
  pub loop : ArchitectureRepairLoop
  pub trigger : ArchitectureRepairTrigger
  pub discovery : ArchitectureRepairDiscovery
  pub budgets : ArchitectureRepairBudgets
  pub governance : ArchitectureEnvelopeGovernance
  pub routing : ArchitectureRepairRouting
  pub created_at : String
  pub expires_at : String
  pub canonical_digest : String
  pub predecessor_digest : Option String
  pub lineage : ArchitectureRepairLineage
  pub stop_conditions : List String
  pub terminal_statuses : List String

pub record ArchitectureCandidateEligibility : Type 0 where
  pub open_bug : Bool
  pub target_in_repository : Bool
  pub no_existing_fix : Bool
  pub current_head_unfixed : Bool
  pub security_sensitive : Bool
  pub public_reproduction_feasible : Bool
  pub deterministic_local_reproduction : Bool
  pub expected_behavior_grounded : Bool
  pub bounded_policy_compatible : Bool

pub record ArchitectureCandidateDecision : Type 0 where
  pub schema : String
  pub run_id : String
  pub repository : String
  pub base_sha : String
  pub issue_number : ℤ
  pub rank : ℤ
  pub decision : String
  pub eligibility : ArchitectureCandidateEligibility
  pub reason_codes : List String
  pub evidence_digests : List String
  pub expected_behavior_source : String
  pub decided_at : String
  pub decision_digest : String

pub record ArchitectureMergeDecision : Type 0 where
  pub authorized : Bool
  pub mode : String
  pub approval_kind : String
  pub approval_head_sha : Option String
  pub auto_merge_opt_in : Bool
  pub branch_protection_bypassed : Bool

pub record ArchitectureRequiredCheck : Type 0 where
  pub name : String
  pub conclusion : String
  pub head_sha : String

pub record ArchitectureGovernanceDecision : Type 0 where
  pub schema : String
  pub run_id : String
  pub repository : String
  pub base_sha : String
  pub head_sha : String
  pub governance_class : String
  pub classification_sources : List String
  pub push_target : String
  pub pull_request_mode : String
  pub merge : ArchitectureMergeDecision
  pub protected_path_touched : Bool
  pub required_checks : List ArchitectureRequiredCheck
  pub action_digest_required : Bool
  pub decided_at : String
  pub decision_digest : String

pub record ArchitectureReviewerIndependence : Type 0 where
  pub schema : String
  pub run_id : String
  pub subject_digest : String
  pub reviewer_id : String
  pub status : String
  pub deterministic_tests_primary : Bool
  pub satisfies_team_merge_gate : Bool
  pub reviewed_at : String
  pub review_digest : String

pub record ArchitectureGitHubActionDigest : Type 0 where
  pub schema : String
  pub run_id : String
  pub repository : String
  pub issue_number : ℤ
  pub base_sha : String
  pub head_sha : String
  pub fork : Option String
  pub branch : String
  pub pr_title_digest : String
  pub pr_body_digest : String
  pub diff_digest : String
  pub required_checks : List ArchitectureRequiredCheck
  pub action : String
  pub approved_at : String
  pub expires_at : String
  pub run_envelope_digest : String
  pub candidate_decision_digest : String
  pub governance_decision_digest : String
  pub reviewer_independence_digest : String
  pub action_digest : String

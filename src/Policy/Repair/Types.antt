-- ===== src/Policy/Repair/Types.antt =====
-- internal/policy/autonomous_repair_governance.go: the governance policy, the request and the decision.
use ao_covenant.Base.{String, Bool, Option, List, [], ◌∷◌}
use ao_covenant.Base.Dict.{Dict}
use ao_covenant.Integers.{ℤ}
use ao_covenant.Policy.Repair.Documents.{
  ArchitectureRunEnvelope, ArchitectureCandidateDecision, ArchitectureGovernanceDecision,
  ArchitectureReviewerIndependence, ArchitectureGitHubActionDigest,
}

abbrev pub autonomous_repair_governance_policy_version : String
autonomous_repair_governance_policy_version = "covenant.autonomous-repair-governance-policy.v1"

abbrev pub autonomous_repair_governance_request_version : String
autonomous_repair_governance_request_version = "covenant.autonomous-repair-governance-request.v1"

abbrev pub autonomous_repair_risky_path_classes : List String
autonomous_repair_risky_path_classes =
    "dependency" ∷ "workflow" ∷ "credential" ∷ "permission" ∷ "policy" ∷ "schema" ∷ "migration"
    ∷ "release" ∷ "security_boundary" ∷ "generated_artifact" ∷ []

pub record AutonomousRepairContractSource : Type 0 where
  pub repository : String
  pub commit : String
  pub schema_ids : List String

pub record AutonomousRepairRepositoryPolicy : Type 0 where
  pub repository_class : String
  pub sole_auto_merge_opt_in : Bool
  pub push_target : String
  pub pull_request_mode : String
  pub required_checks : List String
  pub allowed_actions : List String

pub record AutonomousRepairPolicyDefaults : Type 0 where
  pub discovery_mutation_authorized : Bool
  pub issue_text_can_authorize : Bool
  pub repository_text_can_authorize : Bool
  pub unknown_repository_policy : AutonomousRepairRepositoryPolicy
  pub branch_protection_bypass : Bool

pub record AutonomousRepairGovernancePolicy : Type 0 where
  pub schema_version : String
  pub policy_id : String
  pub architecture_contract : AutonomousRepairContractSource
  pub defaults : AutonomousRepairPolicyDefaults
  pub repository_policies : Dict AutonomousRepairRepositoryPolicy
  pub risky_path_classes : List String
  pub permanently_denied_actions : List String

pub record AutonomousRepairGovernanceRequest : Type 0 where
  pub schema_version : String
  pub request_id : String
  pub mode : String
  pub repository : String
  pub ownership_class_assertion : Option String
  pub issue_number : Option ℤ
  pub action : String
  pub current_base_sha : String
  pub changed_path_classes : List String
  pub approved_action_digest : String
  pub run_envelope : Option ArchitectureRunEnvelope
  pub candidate_decision : Option ArchitectureCandidateDecision
  pub governance_decision : Option ArchitectureGovernanceDecision
  pub reviewer_independence : Option ArchitectureReviewerIndependence
  pub github_action_digest : Option ArchitectureGitHubActionDigest

pub record AutonomousRepairGovernanceDecision : Type 0 where
  pub authorized : Bool
  pub mutation_authorized : Bool
  pub repository_class : String
  pub reason_code : String

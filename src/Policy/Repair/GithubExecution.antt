-- ===== src/Policy/Repair/GithubExecution.antt =====
-- internal/policy/autonomous_repair_github_execution.go: the policy for what is executed on GitHub.
use ao_covenant.Base.{String, Bool, true, false, not, ◌&&◌, ◌==◌, ◌≡◌, ◌↔◌, arith}
use ao_covenant.Integers.{ℤ, pos, same_int}

abbrev pub autonomous_repair_github_execution_policy_version : String
autonomous_repair_github_execution_policy_version =
    "covenant.autonomous-repair-github-execution-policy.v1"

pub record AutonomousRepairWorkflowContractSource : Type 0 where
  pub repository : String
  pub commit : String
  pub path : String
  pub schema : String
  pub source_sha256 : String
  pub semantics_sha256 : String

pub record AutonomousRepairPushOperatorForkPolicy : Type 0 where
  pub fork_lookup : String
  pub fork_absent : String
  pub fork_present : String
  pub branch_absent : String
  pub branch_present : String
  pub force_update_allowed : Bool
  pub upstream_push_allowed : Bool

pub record AutonomousRepairOpenUpstreamDraftPrPolicy : Type 0 where
  pub lookup : String
  pub absent : String
  pub present : String
  pub update_allowed : Bool
  pub ready_for_review_allowed : Bool
  pub review_allowed : Bool
  pub merge_allowed : Bool

pub record AutonomousRepairGitHubWriteBudget : Type 0 where
  pub fork_creates : ℤ
  pub branch_creates : ℤ
  pub draft_pr_creates : ℤ

pub record AutonomousRepairGitHubCredentialPolicy : Type 0 where
  pub ambient_only : Bool
  pub serialized : Bool

pub record AutonomousRepairGitHubExecutionSafetyBoundaries : Type 0 where
  pub issue_list_grants_mutation_authority : Bool
  pub successor_may_widen_authority : Bool
  pub unknown_governance_defaults_to_external_draft_only : Bool
  pub external_merge_authorized : Bool

pub record AutonomousRepairGitHubExecutionPolicy : Type 0 where
  pub schema_version : String
  pub policy_id : String
  pub architecture_workflow_contract : AutonomousRepairWorkflowContractSource
  pub push_operator_fork : AutonomousRepairPushOperatorForkPolicy
  pub open_upstream_draft_pr : AutonomousRepairOpenUpstreamDraftPrPolicy
  pub write_budget : AutonomousRepairGitHubWriteBudget
  pub credentials : AutonomousRepairGitHubCredentialPolicy
  pub safety : AutonomousRepairGitHubExecutionSafetyBoundaries

unfoldable pub valid_autonomous_repair_github_execution_policy :
    AutonomousRepairGitHubExecutionPolicy → Bool
valid_autonomous_repair_github_execution_policy policy =
    policy.schema_version == autonomous_repair_github_execution_policy_version
    && policy.policy_id == "autonomous-repair-github-execution-v1"
    && policy.architecture_workflow_contract.repository == "uesugitorachiyo/ao-architecture"
    && policy.architecture_workflow_contract.commit == "8e6f247b800b60c520b4e967f7553974a20ec2f8"
    && policy.architecture_workflow_contract.path == "stack/github-issue-workflow-contracts.json"
    && policy.architecture_workflow_contract.schema
      == "ao.architecture.github-issue-workflow-contracts.v0.1"
    && policy.architecture_workflow_contract.source_sha256
      == "60bd07fa4e02d38f0321aa138bb53ca3f89e44499621a7e0369065bca88889ae"
    && policy.architecture_workflow_contract.semantics_sha256
      == "2c6835289c508cd2954df545f93a1262c0616de87917bb1f749488376087b9b4"
    && policy.push_operator_fork.fork_lookup == "required_before_write"
    && policy.push_operator_fork.fork_absent == "create_then_exact_readback"
    && policy.push_operator_fork.fork_present == "reuse_only_exact_owner_parent_and_default_branch"
    && policy.push_operator_fork.branch_absent == "create_at_exact_approved_head"
    && policy.push_operator_fork.branch_present == "reuse_only_at_exact_approved_head"
    && not policy.push_operator_fork.force_update_allowed
    && not policy.push_operator_fork.upstream_push_allowed
    && policy.open_upstream_draft_pr.lookup == "exact_base_head_open_pull_requests"
    && policy.open_upstream_draft_pr.absent == "create_once_then_exact_readback"
    && policy.open_upstream_draft_pr.present == "reuse_only_exact_draft_identity"
    && not policy.open_upstream_draft_pr.update_allowed
    && not policy.open_upstream_draft_pr.ready_for_review_allowed
    && not policy.open_upstream_draft_pr.review_allowed
    && not policy.open_upstream_draft_pr.merge_allowed
    && same_int policy.write_budget.fork_creates (pos 1)
    && same_int policy.write_budget.branch_creates (pos 1)
    && same_int policy.write_budget.draft_pr_creates (pos 1)
    && policy.credentials.ambient_only
    && not policy.credentials.serialized
    && not policy.safety.issue_list_grants_mutation_authority
    && not policy.safety.successor_may_widen_authority
    && policy.safety.unknown_governance_defaults_to_external_draft_only
    && not policy.safety.external_merge_authorized

-- The one policy that the program was built for.
abbrev pub execution_policy : AutonomousRepairGitHubExecutionPolicy
execution_policy = record {
  schema_version = autonomous_repair_github_execution_policy_version;
  policy_id = "autonomous-repair-github-execution-v1";
  architecture_workflow_contract = record {
    repository = "uesugitorachiyo/ao-architecture";
    commit = "8e6f247b800b60c520b4e967f7553974a20ec2f8";
    path = "stack/github-issue-workflow-contracts.json";
    schema = "ao.architecture.github-issue-workflow-contracts.v0.1";
    source_sha256 = "60bd07fa4e02d38f0321aa138bb53ca3f89e44499621a7e0369065bca88889ae";
    semantics_sha256 = "2c6835289c508cd2954df545f93a1262c0616de87917bb1f749488376087b9b4";
  };
  push_operator_fork = record {
    fork_lookup = "required_before_write";
    fork_absent = "create_then_exact_readback";
    fork_present = "reuse_only_exact_owner_parent_and_default_branch";
    branch_absent = "create_at_exact_approved_head";
    branch_present = "reuse_only_at_exact_approved_head";
    force_update_allowed = false;
    upstream_push_allowed = false;
  };
  open_upstream_draft_pr = record {
    lookup = "exact_base_head_open_pull_requests";
    absent = "create_once_then_exact_readback";
    present = "reuse_only_exact_draft_identity";
    update_allowed = false;
    ready_for_review_allowed = false;
    review_allowed = false;
    merge_allowed = false;
  };
  write_budget = record { fork_creates = pos 1; branch_creates = pos 1; draft_pr_creates = pos 1 };
  credentials = record { ambient_only = true; serialized = false };
  safety = record {
    issue_list_grants_mutation_authority = false;
    successor_may_widen_authority = false;
    unknown_governance_defaults_to_external_draft_only = true;
    external_merge_authorized = false;
  };
}

-- Exactly one execution policy is valid: every widening of it, in any field, is refused.
pub valid_unique :
    (policy : AutonomousRepairGitHubExecutionPolicy)
    → (valid_autonomous_repair_github_execution_policy policy ≡ true) ↔ (policy ≡ execution_policy)
unfolding valid_autonomous_repair_github_execution_policy
valid_unique policy = (λ h. ground arith, λ e. ground arith)

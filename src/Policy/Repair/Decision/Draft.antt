-- ===== src/Policy/Repair/Decision/Draft.antt =====
-- What a repository of the class `external` may receive.
use ao_covenant.Base.{ℕ, String, Bool, true, false, none, ◌≡◌, ◌⊎◌, sym, ◌∙◌, arith, ok}
use ao_covenant.Policy.Repair.Documents.{
  ArchitectureGovernanceDecision, ArchitectureMergeDecision, ArchitectureRunEnvelope,
  ArchitectureGitHubActionDigest, ArchitectureReviewerIndependence,
}
use ao_covenant.Policy.Repair.Types.{
  AutonomousRepairGovernancePolicy, AutonomousRepairRepositoryPolicy,
  AutonomousRepairGovernanceRequest,
}
use ao_covenant.Text.{Host}
use ao_covenant.Policy.Repair.Governance.{autonomous_repair_repository_policy}
use ao_covenant.Policy.Repair.Routing.{validate_architecture_routing}
use ao_covenant.Policy.Repair.ActionClass.{validate_architecture_action_class, claims_merge}
use ao_covenant.Policy.Repair.Authority.{Services, Authority}
use ao_covenant.Policy.Repair.Authority.Checks.{validate-Checks}
use ao_covenant.Policy.Repair.Decision.{evaluate_autonomous_repair_governance, class_permission}
use ao_covenant.Policy.Repair.Decision.Granted.{Carries, evaluate-Granted, evaluate-class}

-- No part of the merge decision grants a merge.
pub record NoMerge (merge : ArchitectureMergeDecision) : Type 0 where
  pub unauthorized : merge.authorized ≡ false
  pub never : merge.mode ≡ "never"
  pub no_approval : merge.approval_kind ≡ "none"
  pub no_approved_head : merge.approval_head_sha ≡ none
  pub no_opt_in : merge.auto_merge_opt_in ≡ false

pub claims_merge-NoMerge :
    (merge : ArchitectureMergeDecision) → claims_merge merge ≡ false → NoMerge merge
unfolding claims_merge
claims_merge-NoMerge merge h = ground arith

-- The action stays in the operator's fork or opens a draft upstream.
abbrev pub IsDraft : String → Type 0
IsDraft action = (action ≡ "push_operator_fork") ⊎ (action ≡ "open_upstream_draft_pr")

class-external :
    (repository_policy : AutonomousRepairRepositoryPolicy) (configured : Bool) (action : String)
    {reason : String}
    → repository_policy.repository_class ≡ "external"
    → class_permission repository_policy configured action ≡ ok (reason, true)
    → IsDraft action
unfolding class_permission
class-external repository_policy configured action external h = ground arith

external-claims :
    (host : Host) (repository_policy : AutonomousRepairRepositoryPolicy)
    (governance : ArchitectureGovernanceDecision) (reviewer : ArchitectureReviewerIndependence)
    (action : ArchitectureGitHubActionDigest)
    → repository_policy.repository_class ≡ "external"
    → validate_architecture_action_class host repository_policy governance reviewer action ≡ ok tt
    → claims_merge governance.merge ≡ false
unfolding validate_architecture_action_class
external-claims host repository_policy governance reviewer action external h = ground arith

external-routing :
    (repository_policy : AutonomousRepairRepositoryPolicy) (envelope : ArchitectureRunEnvelope)
    (governance : ArchitectureGovernanceDecision) (action : ArchitectureGitHubActionDigest)
    → repository_policy.repository_class ≡ "external"
    → validate_architecture_routing repository_policy envelope governance action ≡ ok tt
    → (governance.push_target ≡ "operator_owned_fork")
      × (governance.pull_request_mode ≡ "upstream_draft_only")
unfolding validate_architecture_routing
external-routing repository_policy envelope governance action external h =
    ground (arith, external, h)

pub record DraftOnly (request : AutonomousRepairGovernanceRequest) (a : Authority) : Type 0 where
  pub carried : Carries request a
  pub draft_action : IsDraft request.action
  pub no_merge : NoMerge a.governance.merge
  pub fork : a.governance.push_target ≡ "operator_owned_fork"
  pub draft_mode : a.governance.pull_request_mode ≡ "upstream_draft_only"

-- When a mutation is authorised in a repository of the class `external`, its action pushes to the
-- operator's fork or opens a draft pull request, and the governance decision that the request
-- carries grants no merge of any kind and names the operator's fork and drafts only.
pub external-DraftOnly :
    (services : Services) (policy : AutonomousRepairGovernancePolicy)
    (request : AutonomousRepairGovernanceRequest) (now : ℕ)
    → (evaluate_autonomous_repair_governance services policy request now).mutation_authorized ≡ true
    → (evaluate_autonomous_repair_governance services policy request now).repository_class
      ≡ "external"
    → (a : Authority) × DraftOnly request a
external-DraftOnly services policy request now h class =
    let (rp, configured) = autonomous_repair_repository_policy policy request.repository in
    let external = sym (evaluate-class services policy request now) ∙ class in
    let granted = evaluate-Granted services policy request now h in
    let a = granted.authority in
    let checks =
      validate-Checks services policy rp configured request now a granted.passed.checked in
    let (fork, draft_mode) =
      external-routing rp a.envelope a.governance a.action external checks.routing in
    (
      a,
      record {
        carried = granted.passed.carried;
        draft_action = class-external rp configured request.action external granted.class_allows;
        no_merge = claims_merge-NoMerge a.governance.merge (
            external-claims services.host rp a.governance a.reviewer a.action external
              checks.action_class);
        fork = fork;
        draft_mode = draft_mode;
      },
    )

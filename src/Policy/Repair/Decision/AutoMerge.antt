-- ===== src/Policy/Repair/Decision/AutoMerge.antt =====
-- When a pull request may be merged without a person.
use text.Mathlib.TextEquality.{eq_iff}
use ao_covenant.Base.{ℕ, String, Bool, true, false, some, [], ◌∷◌, ◌≡◌, sym, ◌∙◌, arith, ok}
use ao_covenant.Base.Dict.{Dict, lookup}
use ao_covenant.Text.{Host, has_prefix}
use ao_covenant.Policy.Repair.Documents.{
  ArchitectureGovernanceDecision, ArchitectureGitHubActionDigest, ArchitectureReviewerIndependence,
}
use ao_covenant.Policy.Repair.Types.{
  AutonomousRepairGovernancePolicy, AutonomousRepairRepositoryPolicy,
  AutonomousRepairGovernanceRequest,
}
use ao_covenant.Policy.Repair.Governance.{
  autonomous_repair_repository_policy, valid_repository_policies,
  valid_autonomous_repair_governance_policy,
}
use ao_covenant.Policy.Repair.ActionClass.{validate_architecture_action_class}
use ao_covenant.Policy.Repair.Authority.{Services, Authority, check_binding}
use ao_covenant.Policy.Repair.Authority.Checks.{validate-Checks}
use ao_covenant.Policy.Repair.Decision.{evaluate_autonomous_repair_governance, class_permission}
use ao_covenant.Policy.Repair.Decision.Granted.{evaluate-Granted}

class-auto_merge :
    (repository_policy : AutonomousRepairRepositoryPolicy) (configured : Bool) (action : String)
    {reason : String}
    → action ≡ "auto_merge"
    → class_permission repository_policy configured action ≡ ok (reason, true)
    → (repository_policy.repository_class ≡ "sole_control")
      × (configured ≡ true)
      × (repository_policy.sole_auto_merge_opt_in ≡ true)
unfolding class_permission
class-auto_merge repository_policy configured action merge h = ground (
  arith,
  merge,
  h,
  eq_iff "auto_merge" "push_operator_fork",
  eq_iff "auto_merge" "open_upstream_draft_pr",
)

-- What the merge decision of the governance document says of an automatic merge.
sole-merge :
    (host : Host) (repository_policy : AutonomousRepairRepositoryPolicy)
    (governance : ArchitectureGovernanceDecision) (reviewer : ArchitectureReviewerIndependence)
    (action : ArchitectureGitHubActionDigest)
    → repository_policy.repository_class ≡ "sole_control"
    → action.action ≡ "auto_merge"
    → validate_architecture_action_class host repository_policy governance reviewer action ≡ ok tt
    → (governance.merge.authorized ≡ true)
      × (governance.merge.mode ≡ "auto_merge")
      × (governance.merge.auto_merge_opt_in ≡ true)
unfolding validate_architecture_action_class
sole-merge host repository_policy governance reviewer action sole merge h =
    ground (arith, sole, merge, h, eq_iff "sole_control" "external", eq_iff "sole_control" "team")

binding-action :
    (request : AutonomousRepairGovernanceRequest) (a : Authority)
    → check_binding request a ≡ ok tt
    → request.action ≡ a.action.action
unfolding check_binding
binding-action request a h = ground arith

-- The policy of a configured repository is the one that the map holds for it.
configured-lookup :
    (policy : AutonomousRepairGovernancePolicy) (repository : String)
    → (autonomous_repair_repository_policy policy repository).1 ≡ true
    → lookup policy.repository_policies repository
      ≡ some (autonomous_repair_repository_policy policy repository).0
unfolding autonomous_repair_repository_policy
configured-lookup policy repository h = ground arith

policies-opt_in :
    (policies : Dict AutonomousRepairRepositoryPolicy) (repository : String)
    (repository_policy : AutonomousRepairRepositoryPolicy)
    → valid_repository_policies policies ≡ true
    → lookup policies repository ≡ some repository_policy
    → repository_policy.sole_auto_merge_opt_in ≡ true
    → has_prefix repository "uesugitorachiyo/ao" ≡ false
unfolding valid_repository_policies lookup
policies-opt_in [] repository repository_policy valid found opt_in = cc
policies-opt_in ((name, first) ∷ policies) repository repository_policy valid found opt_in =
    ground (arith, policies-opt_in policies repository repository_policy)

policy-policies :
    (policy : AutonomousRepairGovernancePolicy)
    → valid_autonomous_repair_governance_policy policy ≡ true
    → valid_repository_policies policy.repository_policies ≡ true
unfolding valid_autonomous_repair_governance_policy
policy-policies policy h = ground arith

module _ (policy : AutonomousRepairGovernancePolicy)
    (request : AutonomousRepairGovernanceRequest) where
  pub record OptedIn : Type 0 where
    pub repository_policy : AutonomousRepairRepositoryPolicy
    pub configured : lookup policy.repository_policies request.repository ≡ some repository_policy
    pub sole_control : repository_policy.repository_class ≡ "sole_control"
    pub opted_in : repository_policy.sole_auto_merge_opt_in ≡ true
    pub not_own : has_prefix request.repository "uesugitorachiyo/ao" ≡ false
    pub governance : ArchitectureGovernanceDecision
    pub carried : request.governance_decision ≡ some governance
    pub merge_authorized : governance.merge.authorized ≡ true
    pub merge_mode : governance.merge.mode ≡ "auto_merge"
    pub merge_opt_in : governance.merge.auto_merge_opt_in ≡ true

-- When an automatic merge is authorised, the policy names the repository, gives it to a sole owner
-- who opted in to automatic merges, and the repository is none of the program's own family; the
-- governance decision that the request carries authorises the merge and says so too.
pub auto_merge-OptedIn :
    (services : Services) (policy : AutonomousRepairGovernancePolicy)
    (request : AutonomousRepairGovernanceRequest) (now : ℕ)
    → (evaluate_autonomous_repair_governance services policy request now).mutation_authorized ≡ true
    → request.action ≡ "auto_merge"
    → OptedIn policy request
auto_merge-OptedIn services policy request now h merge =
    let (rp, configured) = autonomous_repair_repository_policy policy request.repository in
    let granted = evaluate-Granted services policy request now h in
    let a = granted.authority in
    let checks =
      validate-Checks services policy rp configured request now a granted.passed.checked in
    let (sole, explicit, opted_in) =
      class-auto_merge rp configured request.action merge granted.class_allows in
    let found = configured-lookup policy request.repository explicit in
    let (authorized, mode, merge_opt_in) =
      sole-merge services.host rp a.governance a.reviewer a.action sole
        (sym (binding-action request a checks.binding) ∙ merge) checks.action_class in
    record {
      repository_policy = rp;
      configured = found;
      sole_control = sole;
      opted_in = opted_in;
      not_own =
          policies-opt_in policy.repository_policies request.repository rp
            (policy-policies policy granted.policy_valid) found opted_in;
      governance = a.governance;
      carried = granted.passed.carried.2;
      merge_authorized = authorized;
      merge_mode = mode;
      merge_opt_in = merge_opt_in;
    }

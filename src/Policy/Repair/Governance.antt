-- ===== src/Policy/Repair/Governance.antt =====
-- internal/policy/autonomous_repair_governance.go: the validity of the policy, of its repository
-- policies and of the shape of a request. A validator's reason is an error, and "" is success.
use ao_covenant.Base.{
  String, Bool, true, false, not, ◌&&◌, ◌||◌, Option, none, some, List, [], ◌∷◌, eqb, ◌==◌, length,
  contains_string, if◌then◌else◌, Outcome, fail_if, ◌>>◌,
}
use ao_covenant.Base.Dict.{Dict, lookup}
use ao_covenant.Integers.{ℤ, at_least}
use ao_covenant.Text.{has_prefix}
use ao_covenant.Policy.Repair.Types.{
  AutonomousRepairRepositoryPolicy, AutonomousRepairGovernancePolicy,
  AutonomousRepairGovernanceRequest, autonomous_repair_governance_policy_version,
  autonomous_repair_governance_request_version, autonomous_repair_risky_path_classes,
}
use ao_covenant.Policy.Repair.Strings.{
  unique_nonempty_strings, every_string_in, same_unique_strings, valid_repository_name,
  architecture_actions,
}

abbrev pub Check : Type 0
Check = Outcome String (Unit {0})

abbrev pub draft_actions : List String
draft_actions = "push_operator_fork" ∷ "open_upstream_draft_pr" ∷ []

-- The switch on the class.
unfoldable pub valid_class_policy : AutonomousRepairRepositoryPolicy → Bool → Bool
valid_class_policy policy allow_sole =
    if policy.repository_class == "external"
    then not policy.sole_auto_merge_opt_in
      && policy.push_target == "operator_owned_fork"
      && policy.pull_request_mode == "upstream_draft_only"
      && every_string_in policy.allowed_actions draft_actions
    else if policy.repository_class == "team"
    then not policy.sole_auto_merge_opt_in
      && not (contains_string policy.allowed_actions "auto_merge")
    else if policy.repository_class == "sole_control"
    then allow_sole
    else false

unfoldable pub valid_autonomous_repair_repository_policy :
    AutonomousRepairRepositoryPolicy → Bool → Bool
valid_autonomous_repair_repository_policy policy allow_sole =
    if not (contains_string ("sole_control" ∷ "team" ∷ "external" ∷ []) policy.repository_class)
      || not (
          contains_string ("policy_authorized_branch" ∷ "operator_owned_fork" ∷ [])
            policy.push_target)
      || not (
          contains_string ("draft_or_ready_by_policy" ∷ "upstream_draft_only" ∷ [])
            policy.pull_request_mode)
      || eqb (length policy.required_checks) 0
      || not (unique_nonempty_strings policy.required_checks)
      || eqb (length policy.allowed_actions) 0
      || not (unique_nonempty_strings policy.allowed_actions)
    then false
    else if not (every_string_in policy.allowed_actions architecture_actions)
    then false
    else valid_class_policy policy allow_sole

abbrev pub required_schemas : List String
required_schemas =
    "ao.architecture.autonomous-issue-repair.run-envelope.v1"
    ∷ "ao.architecture.autonomous-issue-repair.discovery-result.v1"
    ∷ "ao.architecture.autonomous-issue-repair.candidate-decision.v1"
    ∷ "ao.architecture.autonomous-issue-repair.event.v1"
    ∷ "ao.architecture.autonomous-issue-repair.checkpoint.v1"
    ∷ "ao.architecture.autonomous-issue-repair.governance-decision.v1"
    ∷ "ao.architecture.autonomous-issue-repair.reviewer-independence.v1"
    ∷ "ao.architecture.autonomous-issue-repair.github-action-digest.v1" ∷ []

abbrev pub permanently_denied : List String
permanently_denied =
    "open_ready_pr_external" ∷ "request_merge_queue_external" ∷ "auto_merge_external"
    ∷ "approve_review" ∷ "mutate_issue" ∷ []

-- The loop over the repository policies: a map whose keys are distinct.
unfoldable pub valid_repository_policies : Dict AutonomousRepairRepositoryPolicy → Bool
valid_repository_policies [] = true
valid_repository_policies ((repository, repository_policy) ∷ policies) =
    let rest = valid_repository_policies policies in
    if not (valid_repository_name repository)
      || not (valid_autonomous_repair_repository_policy repository_policy true)
    then false
    else if has_prefix repository "uesugitorachiyo/ao" && repository_policy.sole_auto_merge_opt_in
    then false
    else rest

-- The first test of the policy, up to the repository policies.
unfoldable pub valid_policy_head : AutonomousRepairGovernancePolicy → Bool
valid_policy_head policy = not (
    not (policy.schema_version == autonomous_repair_governance_policy_version)
    || not (policy.policy_id == "autonomous-repair-governance-v1")
    || not (policy.architecture_contract.repository == "uesugitorachiyo/ao-architecture")
    || not (policy.architecture_contract.commit == "b8c64860003238ab45fe7c76d7e8950f80a4043b")
    || not (same_unique_strings policy.architecture_contract.schema_ids required_schemas)
    || policy.defaults.discovery_mutation_authorized
    || policy.defaults.issue_text_can_authorize
    || policy.defaults.repository_text_can_authorize
    || policy.defaults.branch_protection_bypass
    || not (same_unique_strings policy.risky_path_classes autonomous_repair_risky_path_classes)
    || not (same_unique_strings policy.permanently_denied_actions permanently_denied)
    || not
        (valid_autonomous_repair_repository_policy policy.defaults.unknown_repository_policy false)
    || not (policy.defaults.unknown_repository_policy.repository_class == "external"))

unfoldable pub valid_autonomous_repair_governance_policy : AutonomousRepairGovernancePolicy → Bool
valid_autonomous_repair_governance_policy policy =
    if not (valid_policy_head policy)
    then false
    else if eqb (length policy.repository_policies) 0
    then false
    else valid_repository_policies policy.repository_policies

abbrev pub or_default :
    AutonomousRepairRepositoryPolicy
    → Option AutonomousRepairRepositoryPolicy
    → AutonomousRepairRepositoryPolicy × Bool
or_default unknown none = (unknown, false)
or_default unknown (some repository_policy) = (repository_policy, true)

unfoldable pub autonomous_repair_repository_policy :
    AutonomousRepairGovernancePolicy → String → AutonomousRepairRepositoryPolicy × Bool
autonomous_repair_repository_policy policy repository =
    or_default policy.defaults.unknown_repository_policy
      (lookup policy.repository_policies repository)

abbrev pub is_nil {ℓ} : {A : Type ℓ} → Option A → Bool
is_nil none = true
is_nil (some x) = false

abbrev positive_issue : Option ℤ → Bool
positive_issue none = false
positive_issue (some n) = at_least 1 n

unfoldable pub validate_autonomous_repair_request_shape : AutonomousRepairGovernanceRequest → Check
validate_autonomous_repair_request_shape request =
    fail_if
      (not (request.schema_version == autonomous_repair_governance_request_version)
        || request.request_id == ""
        || request.repository == "")
      "invalid autonomous repair governance request identity"
    >> (if request.mode == "discovery"
        then fail_if
            (not (is_nil request.ownership_class_assertion)
              || not (is_nil request.issue_number)
              || not (request.action == "")
              || not (request.current_base_sha == "")
              || not (eqb (length request.changed_path_classes) 0)
              || not (request.approved_action_digest == "")
              || not (is_nil request.run_envelope)
              || not (is_nil request.candidate_decision)
              || not (is_nil request.governance_decision)
              || not (is_nil request.reviewer_independence)
              || not (is_nil request.github_action_digest))
            "discovery request contains write authority evidence"
        else fail_if
            (not (request.mode == "write")
              || not (positive_issue request.issue_number)
              || request.current_base_sha == ""
              || request.approved_action_digest == ""
              || is_nil request.run_envelope
              || is_nil request.candidate_decision
              || is_nil request.governance_decision
              || is_nil request.reviewer_independence
              || is_nil request.github_action_digest)
            "write request is missing canonical authority evidence"
          >> fail_if (not (contains_string architecture_actions request.action))
              "write request action is not an Architecture v1 action")

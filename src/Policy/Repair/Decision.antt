-- ===== src/Policy/Repair/Decision.antt =====
-- `EvaluateAutonomousRepairGovernance` of internal/policy/autonomous_repair_governance.go. A denial is
-- an error with its reason code, and a permission its reason code and whether it authorises a mutation.
pub mod Granted
pub mod Draft
pub mod AutoMerge
pub mod Bound
use ao_covenant.Base.{
  ℕ, String, Bool, true, false, not, ◌&&◌, ◌||◌, Option, none, some, ◌==◌, contains_string,
  if◌then◌else◌, Outcome, ok, err, fail_if, ◌>>◌, ◌>>=◌,
}
use ao_covenant.Policy.Repair.Types.{
  AutonomousRepairGovernancePolicy, AutonomousRepairRepositoryPolicy,
  AutonomousRepairGovernanceRequest, AutonomousRepairGovernanceDecision,
}
use ao_covenant.Policy.Repair.Governance.{
  Check, valid_autonomous_repair_governance_policy, validate_autonomous_repair_request_shape,
  autonomous_repair_repository_policy,
}
use ao_covenant.Policy.Repair.Authority.{
  Services, Authority, canonical_authority, validate_authority,
}

abbrev pub Permission : Type 0
Permission = Outcome String (String × Bool)

-- The decision that `allow` and `deny` make.
abbrev pub decided : String → Permission → AutonomousRepairGovernanceDecision
decided repository_class (err reason) = record {
  authorized = false;
  mutation_authorized = false;
  repository_class = repository_class;
  reason_code = reason;
}
decided repository_class (ok (reason, mutation)) = record {
  authorized = true;
  mutation_authorized = mutation;
  repository_class = repository_class;
  reason_code = reason;
}

-- A check whose own reason is replaced.
unfoldable pub reported_as : String → Check → Check
reported_as reason (ok done) = ok tt
reported_as reason (err own) = err reason

unfoldable pub mismatched_assertion : Option String → String → Bool
mismatched_assertion none repository_class = false
mismatched_assertion (some asserted) repository_class = not (asserted == repository_class)

-- The switch on the class of the repository.
unfoldable pub class_permission : AutonomousRepairRepositoryPolicy → Bool → String → Permission
class_permission repository_policy explicitly_configured action =
    if repository_policy.repository_class == "external"
    then fail_if (not (action == "push_operator_fork") && not (action == "open_upstream_draft_pr"))
        "external_draft_only"
      >> ok ("external_draft_only", true)
    else if repository_policy.repository_class == "sole_control"
    then (if action == "auto_merge"
        then fail_if (not explicitly_configured || not repository_policy.sole_auto_merge_opt_in)
            "sole_control_auto_merge_not_opted_in"
          >> ok ("sole_control_auto_merge", true)
        else ok ("sole_control_bounded_action", true))
    else if repository_policy.repository_class == "team"
    then (if action == "auto_merge"
        then err "team_auto_merge_denied"
        else if action == "request_merge_queue"
        then ok ("team_merge_queue", true)
        else ok ("team_bounded_action", true))
    else err "invalid_repository_class"

module _ (services : Services) (policy : AutonomousRepairGovernancePolicy)
    (request : AutonomousRepairGovernanceRequest) (now : ℕ) where
  unfoldable pub validate_architecture_repair_authority :
      AutonomousRepairRepositoryPolicy → Bool → Check
  validate_architecture_repair_authority repository_policy explicitly_configured =
      canonical_authority request.run_envelope request.candidate_decision
        request.governance_decision request.reviewer_independence request.github_action_digest
      >>= validate_authority services policy repository_policy explicitly_configured request now

  -- What a request outside discovery must pass.
  unfoldable pub write_permission : AutonomousRepairRepositoryPolicy → Bool → Permission
  write_permission repository_policy explicitly_configured =
      validate_architecture_repair_authority repository_policy explicitly_configured
      >> fail_if (not (contains_string repository_policy.allowed_actions request.action))
          "action_not_allowed_by_repository_policy"
      >> fail_if (contains_string policy.permanently_denied_actions request.action)
          "permanently_denied_action"
      >> class_permission repository_policy explicitly_configured request.action

  -- Discovery is read-only.
  unfoldable pub mode_permission : AutonomousRepairRepositoryPolicy → Bool → Permission
  mode_permission repository_policy explicitly_configured =
      if request.mode == "discovery"
      then ok ("read_only_discovery", false)
      else write_permission repository_policy explicitly_configured

  unfoldable pub permission : AutonomousRepairRepositoryPolicy → Bool → Permission
  permission repository_policy explicitly_configured =
      fail_if (not (valid_autonomous_repair_governance_policy policy)) "invalid_policy"
      >> reported_as "invalid_request" (validate_autonomous_repair_request_shape request)
      >> fail_if (not (services.schema_accepts request)) "malformed_canonical_authority"
      >> fail_if
          (mismatched_assertion request.ownership_class_assertion
            repository_policy.repository_class)
          "ownership_assertion_mismatch"
      >> mode_permission repository_policy explicitly_configured

  unfoldable pub evaluate_autonomous_repair_governance : AutonomousRepairGovernanceDecision
  evaluate_autonomous_repair_governance =
      let (repository_policy, explicitly_configured) =
        autonomous_repair_repository_policy policy request.repository in
      decided repository_policy.repository_class
        (permission repository_policy explicitly_configured)

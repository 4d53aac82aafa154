-- ===== src/Policy/Repair/ActionClass.antt =====
-- `validateArchitectureActionClass` of internal/policy/autonomous_repair_architecture.go.
use ao_covenant.Base.{
  String, Bool, false, not, ◌||◌, ◌&&◌, Option, none, some, ◌==◌, if◌then◌else◌, ok, fail_if, ◌>>◌,
}
use ao_covenant.Text.{Host}
use ao_covenant.Policy.Repair.Documents.{
  ArchitectureGovernanceDecision, ArchitectureGitHubActionDigest, ArchitectureReviewerIndependence,
  ArchitectureMergeDecision,
}
use ao_covenant.Policy.Repair.Types.{AutonomousRepairRepositoryPolicy}
use ao_covenant.Policy.Repair.Strings.{automated_reviewer}
use ao_covenant.Policy.Repair.Governance.{Check, is_nil}

abbrev pub approved_for : Option String → String → Bool
approved_for none head_sha = false
approved_for (some approval_head_sha) head_sha = approval_head_sha == head_sha

-- The merge decision claims some merge authority.
unfoldable pub claims_merge : ArchitectureMergeDecision → Bool
claims_merge merge =
    merge.authorized
    || not (merge.mode == "never")
    || not (merge.approval_kind == "none")
    || not (is_nil merge.approval_head_sha)
    || merge.auto_merge_opt_in

-- An independent human has approved this head for the merge queue.
unfoldable pub team_gate :
    Host
    → ArchitectureMergeDecision
    → ArchitectureReviewerIndependence
    → ArchitectureGitHubActionDigest
    → Check
team_gate host merge reviewer action =
    fail_if
      (not merge.authorized
        || not (merge.mode == "merge_queue")
        || not (merge.approval_kind == "independent_human")
          && not (merge.approval_kind == "codeowner")
        || not (approved_for merge.approval_head_sha action.head_sha)
        || not (reviewer.status == "independent")
        || not reviewer.satisfies_team_merge_gate
        || automated_reviewer host reviewer.reviewer_id)
      "independent_human_approval_required"

unfoldable pub validate_architecture_action_class :
    Host
    → AutonomousRepairRepositoryPolicy
    → ArchitectureGovernanceDecision
    → ArchitectureReviewerIndependence
    → ArchitectureGitHubActionDigest
    → Check
validate_architecture_action_class host repository_policy governance reviewer action =
    let merge = governance.merge in
    fail_if
      (action.action == "request_merge_queue"
        && (not merge.authorized || not (merge.mode == "merge_queue")))
      "merge_queue_authorization_required"
    >> fail_if
        (not (action.action == "request_merge_queue")
          && not (action.action == "auto_merge")
          && claims_merge merge)
        "contradictory_merge_authority"
    >> (if repository_policy.repository_class == "external"
        then fail_if
            (not (action.action == "push_operator_fork")
              && not (action.action == "open_upstream_draft_pr"))
            "external_draft_only"
          >> fail_if (claims_merge merge) "external_draft_only"
        else if repository_policy.repository_class == "team"
        then fail_if (action.action == "auto_merge") "team_auto_merge_denied"
          >> (if action.action == "request_merge_queue"
              then team_gate host merge reviewer action
              else ok tt)
        else if repository_policy.repository_class == "sole_control"
        then fail_if
            (action.action == "auto_merge"
              && (not repository_policy.sole_auto_merge_opt_in
                  || not merge.authorized
                  || not (merge.mode == "auto_merge")
                  || not merge.auto_merge_opt_in))
            "sole_control_auto_merge_not_opted_in"
        else ok tt)

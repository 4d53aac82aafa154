-- ===== src/Policy/Repair/Shapes.antt =====
-- internal/policy/autonomous_repair_architecture.go: what each of the five documents must look like.
use ao_covenant.Base.{
  String, Bool, true, false, not, ◌&&◌, ◌||◌, Option, none, some, List, [], ◌∷◌, eqb, ◌==◌, length,
  contains_string, if◌then◌else◌, map,
}
use ao_covenant.Integers.{at_least, at_most, same_int, pos}
use ao_covenant.Text.{Host}
use ao_covenant.Policy.Repair.Documents.{
  ArchitectureRunEnvelope, ArchitectureCandidateDecision, ArchitectureGovernanceDecision,
  ArchitectureReviewerIndependence, ArchitectureGitHubActionDigest, ArchitectureMergeDecision,
  ArchitectureRequiredCheck, architecture_run_envelope_schema, architecture_candidate_schema,
  architecture_governance_schema, architecture_reviewer_schema,
  architecture_github_action_digest_schema,
}
use ao_covenant.Policy.Repair.Strings.{
  unique_after, unique_nonempty_strings, every_string_in, valid_repository_name, matches_hex,
  matches_sha40, matches_sha64, matches_run_id, valid_rfc3339, unique_digest_strings,
  architecture_actions,
}

abbrev pub ownership_classes : List String
ownership_classes = "sole_control" ∷ "team" ∷ "external" ∷ "unknown" ∷ []

abbrev succession : Option String → Option String → Option String → Bool
succession (some digest) (some run_id) (some lineage_digest) =
    lineage_digest == digest && matches_sha64 digest && matches_run_id run_id
succession _ _ _ = false

abbrev no_predecessor : Option String → Option String → Option String → Bool
no_predecessor none none none = true
no_predecessor _ _ _ = false

unfoldable pub valid_architecture_lineage : ArchitectureRunEnvelope → Bool
unfolding matches_hex matches_run_id
valid_architecture_lineage envelope =
    let lineage = envelope.lineage in
    if lineage.kind == "origin"
    then no_predecessor envelope.predecessor_digest lineage.predecessor_run_id
        lineage.predecessor_digest
    else if lineage.kind == "narrower_successor"
    then succession envelope.predecessor_digest lineage.predecessor_run_id
        lineage.predecessor_digest
    else false

unfoldable pub valid_architecture_envelope_shape : Host → ArchitectureRunEnvelope → Bool
unfolding valid_architecture_lineage matches_hex matches_run_id unique_after valid_repository_name
valid_architecture_envelope_shape host envelope =
    envelope.schema == architecture_run_envelope_schema
    && matches_run_id envelope.run_id
    && not (envelope.loop.goal == "")
    && not (envelope.loop.trigger == "")
    && not (envelope.loop.discovery == "")
    && not (envelope.loop.action == "")
    && not (envelope.loop.verification == "")
    && not (envelope.loop.state == "")
    && not (envelope.loop.human_gates == "")
    && contains_string ("explicit_issue" ∷ "issue_list" ∷ []) envelope.trigger.mode
    && not (envelope.trigger.canonical_url == "")
    && valid_repository_name envelope.trigger.repository
    && not (envelope.trigger.default_branch == "")
    && matches_sha40 envelope.trigger.pinned_base_commit
    && at_least 1 envelope.discovery.snapshot_limit
    && at_most 50 envelope.discovery.snapshot_limit
    && at_least 1 envelope.discovery.candidate_limit
    && at_most 10 envelope.discovery.candidate_limit
    && same_int envelope.discovery.selected_limit (pos 1)
    && at_least 1 envelope.budgets.wall_clock_seconds
    && at_least 0 envelope.budgets.clone_count
    && at_least 1 envelope.budgets.test_runs
    && at_least 0 envelope.budgets.retry_count
    && at_least 0 envelope.budgets.repair_count
    && at_most 1 envelope.budgets.repair_count
    && at_least 0 envelope.budgets.publication_count
    && at_most 1 envelope.budgets.publication_count
    && contains_string ownership_classes envelope.governance.ownership_class
    && unique_nonempty_strings envelope.governance.allowed_actions
    && unique_nonempty_strings envelope.governance.denied_actions
    && not (envelope.routing.default_branch == "")
    && matches_sha40 envelope.routing.pinned_base_commit
    && not (envelope.routing.repair_branch == "")
    && unique_nonempty_strings envelope.routing.protected_path_classes
    && unique_nonempty_strings envelope.routing.required_checks
    && valid_rfc3339 host envelope.created_at
    && valid_rfc3339 host envelope.expires_at
    && matches_sha64 envelope.canonical_digest
    && valid_architecture_lineage envelope
    && unique_nonempty_strings envelope.stop_conditions
    && unique_nonempty_strings envelope.terminal_statuses

unfoldable pub valid_architecture_candidate_shape : Host → ArchitectureCandidateDecision → Bool
unfolding matches_hex matches_run_id unique_after valid_repository_name unique_digest_strings
valid_architecture_candidate_shape host candidate =
    candidate.schema == architecture_candidate_schema
    && matches_run_id candidate.run_id
    && valid_repository_name candidate.repository
    && matches_sha40 candidate.base_sha
    && at_least 1 candidate.issue_number
    && at_least 1 candidate.rank
    && at_most 10 candidate.rank
    && contains_string ("eligible" ∷ "selected" ∷ "excluded" ∷ []) candidate.decision
    && unique_nonempty_strings candidate.reason_codes
    && unique_digest_strings candidate.evidence_digests
    && contains_string
        ("tests" ∷ "documentation" ∷ "protocol" ∷ "maintainer_statement" ∷ "unavailable" ∷ [])
        candidate.expected_behavior_source
    && valid_rfc3339 host candidate.decided_at
    && matches_sha64 candidate.decision_digest

abbrev matches_if_given : Option String → Bool
matches_if_given none = true
matches_if_given (some sha) = matches_sha40 sha

unfoldable pub valid_architecture_merge_shape : ArchitectureMergeDecision → Bool
unfolding matches_hex
valid_architecture_merge_shape merge =
    if not (contains_string ("never" ∷ "manual" ∷ "merge_queue" ∷ "auto_merge" ∷ []) merge.mode)
      || not (contains_string ("none" ∷ "independent_human" ∷ "codeowner" ∷ []) merge.approval_kind)
      || merge.branch_protection_bypassed
    then false
    else if not (matches_if_given merge.approval_head_sha)
    then false
    else if not merge.authorized
    then merge.mode == "never"
    else not (merge.mode == "never")

-- The loop over the checks, and the test of their names after it.
unfoldable pub well_formed_checks : List ArchitectureRequiredCheck → Bool
unfolding matches_hex
well_formed_checks [] = true
well_formed_checks (check ∷ checks) =
    let rest = well_formed_checks checks in
    if check.name == ""
      || not (contains_string ("success" ∷ "failure" ∷ "pending" ∷ "missing" ∷ []) check.conclusion)
      || not (matches_sha40 check.head_sha)
    then false
    else rest

unfoldable pub unique_architecture_check_names : List ArchitectureRequiredCheck → Bool
unfolding well_formed_checks unique_after
unique_architecture_check_names checks =
    if eqb (length checks) 0
    then false
    else if not (well_formed_checks checks)
    then false
    else unique_nonempty_strings (map ArchitectureRequiredCheck.name checks)

unfoldable pub valid_architecture_governance_shape : Host → ArchitectureGovernanceDecision → Bool
unfolding matches_hex matches_run_id unique_after every_string_in valid_repository_name
    valid_architecture_merge_shape unique_architecture_check_names
valid_architecture_governance_shape host governance =
    if not (governance.schema == architecture_governance_schema)
      || not (matches_run_id governance.run_id)
      || not (valid_repository_name governance.repository)
      || not (matches_sha40 governance.base_sha)
      || not (matches_sha40 governance.head_sha)
      || not (contains_string ownership_classes governance.governance_class)
      || not (unique_nonempty_strings governance.classification_sources)
      || not (
          every_string_in governance.classification_sources (
            "repository_policy" ∷ "branch_rules" ∷ "codeowners" ∷ "operator_envelope"
            ∷ "unknown_default" ∷ []))
      || not (
          contains_string
            ("authorized_operator_repository" ∷ "policy_authorized_branch" ∷ "operator_owned_fork"
              ∷ [])
            governance.push_target)
      || not (
          contains_string ("draft_or_ready_by_policy" ∷ "upstream_draft_only" ∷ [])
            governance.pull_request_mode)
      || not (valid_architecture_merge_shape governance.merge)
      || not governance.action_digest_required
      || not (valid_rfc3339 host governance.decided_at)
      || not (matches_sha64 governance.decision_digest)
    then false
    else unique_architecture_check_names governance.required_checks

unfoldable pub valid_architecture_reviewer_shape : Host → ArchitectureReviewerIndependence → Bool
unfolding matches_hex matches_run_id
valid_architecture_reviewer_shape host reviewer =
    reviewer.schema == architecture_reviewer_schema
    && matches_run_id reviewer.run_id
    && matches_sha64 reviewer.subject_digest
    && not (reviewer.reviewer_id == "")
    && contains_string ("independent" ∷ "same_vendor" ∷ "unavailable" ∷ "unverified" ∷ [])
        reviewer.status
    && reviewer.deterministic_tests_primary
    && (reviewer.status == "independent" || not reviewer.satisfies_team_merge_gate)
    && valid_rfc3339 host reviewer.reviewed_at
    && matches_sha64 reviewer.review_digest

abbrev valid_fork_name : Option String → Bool
valid_fork_name none = true
valid_fork_name (some fork) = valid_repository_name fork

unfoldable pub valid_architecture_action_shape : Host → ArchitectureGitHubActionDigest → Bool
unfolding matches_hex matches_run_id valid_repository_name unique_architecture_check_names
valid_architecture_action_shape host action =
    if not (action.schema == architecture_github_action_digest_schema)
      || not (matches_run_id action.run_id)
      || not (valid_repository_name action.repository)
      || not (at_least 1 action.issue_number)
      || not (matches_sha40 action.base_sha)
      || not (matches_sha40 action.head_sha)
      || action.branch == ""
      || not (matches_sha64 action.pr_title_digest)
      || not (matches_sha64 action.pr_body_digest)
      || not (matches_sha64 action.diff_digest)
      || not (contains_string architecture_actions action.action)
      || not (valid_rfc3339 host action.approved_at)
      || not (valid_rfc3339 host action.expires_at)
      || not (matches_sha64 action.run_envelope_digest)
      || not (matches_sha64 action.candidate_decision_digest)
      || not (matches_sha64 action.governance_decision_digest)
      || not (matches_sha64 action.reviewer_independence_digest)
      || not (matches_sha64 action.action_digest)
    then false
    else if not (valid_fork_name action.fork)
    then false
    else unique_architecture_check_names action.required_checks

unfoldable pub valid_architecture_document_shapes :
    Host
    → ArchitectureRunEnvelope
    → ArchitectureCandidateDecision
    → ArchitectureGovernanceDecision
    → ArchitectureReviewerIndependence
    → ArchitectureGitHubActionDigest
    → Bool
unfolding valid_architecture_envelope_shape valid_architecture_candidate_shape
    valid_architecture_governance_shape valid_architecture_reviewer_shape
    valid_architecture_action_shape
valid_architecture_document_shapes host envelope candidate governance reviewer action =
    valid_architecture_envelope_shape host envelope
    && valid_architecture_candidate_shape host candidate
    && valid_architecture_governance_shape host governance
    && valid_architecture_reviewer_shape host reviewer
    && valid_architecture_action_shape host action

-- ===== src/Policy/Repair/Encoding.antt =====
-- What `encoding/json` makes of the documents: the fields under their json tags, a nil pointer as null.
use ao_covenant.Base.{String, Option, none, some, List, [], ◌∷◌}
use ao_covenant.Integers.{decimal_int}
use ao_covenant.Json.{
  Value, null, boolean, number, text, array, object, Items, nil, cons, Fields, empty, field,
}
use ao_covenant.Policy.Repair.Documents.{
  ArchitectureRepairLoop, ArchitectureRepairTrigger, ArchitectureRepairDiscovery,
  ArchitectureRepairBudgets, ArchitectureEnvelopeGovernance, ArchitectureRepairRouting,
  ArchitectureRepairLineage, ArchitectureRunEnvelope, ArchitectureCandidateEligibility,
  ArchitectureCandidateDecision, ArchitectureMergeDecision, ArchitectureRequiredCheck,
  ArchitectureGovernanceDecision, ArchitectureReviewerIndependence, ArchitectureGitHubActionDigest,
}

abbrev pub text_or_null : Option String → Value
text_or_null none = null
text_or_null (some s) = text s

unfoldable pub texts : List String → Items
texts [] = nil
texts (s ∷ ss) = cons (text s) (texts ss)

abbrev repair_loop_fields : ArchitectureRepairLoop → Fields
repair_loop_fields loop = field "goal" (text loop.goal) (
    field "trigger" (text loop.trigger) (
      field "discovery" (text loop.discovery) (
        field "action" (text loop.action) (
          field "verification" (text loop.verification) (
            field "state" (text loop.state) (field "human_gates" (text loop.human_gates) empty))))))

abbrev repair_trigger_fields : ArchitectureRepairTrigger → Fields
repair_trigger_fields trigger = field "mode" (text trigger.mode) (
    field "canonical_url" (text trigger.canonical_url) (
      field "repository" (text trigger.repository) (
        field "default_branch" (text trigger.default_branch)
          (field "pinned_base_commit" (text trigger.pinned_base_commit) empty))))

abbrev repair_discovery_fields : ArchitectureRepairDiscovery → Fields
repair_discovery_fields discovery =
    field "snapshot_limit" (number (decimal_int discovery.snapshot_limit)) (
      field "candidate_limit" (number (decimal_int discovery.candidate_limit))
        (field "selected_limit" (number (decimal_int discovery.selected_limit)) empty))

abbrev repair_budgets_fields : ArchitectureRepairBudgets → Fields
repair_budgets_fields budgets =
    field "wall_clock_seconds" (number (decimal_int budgets.wall_clock_seconds)) (
      field "clone_count" (number (decimal_int budgets.clone_count)) (
        field "test_runs" (number (decimal_int budgets.test_runs)) (
          field "retry_count" (number (decimal_int budgets.retry_count)) (
            field "repair_count" (number (decimal_int budgets.repair_count))
              (field "publication_count" (number (decimal_int budgets.publication_count)) empty)))))

abbrev envelope_governance_fields : ArchitectureEnvelopeGovernance → Fields
envelope_governance_fields governance = field "ownership_class" (text governance.ownership_class) (
    field "allowed_actions" (array (texts governance.allowed_actions)) (
      field "denied_actions" (array (texts governance.denied_actions)) (
        field "sole_control_auto_merge_opt_in" (boolean governance.sole_control_auto_merge_opt_in)
          empty)))

abbrev repair_routing_fields : ArchitectureRepairRouting → Fields
repair_routing_fields routing = field "default_branch" (text routing.default_branch) (
    field "pinned_base_commit" (text routing.pinned_base_commit) (
      field "fork_owner" (text_or_null routing.fork_owner) (
        field "repair_branch" (text routing.repair_branch) (
          field "protected_path_classes" (array (texts routing.protected_path_classes))
            (field "required_checks" (array (texts routing.required_checks)) empty)))))

abbrev repair_lineage_fields : ArchitectureRepairLineage → Fields
repair_lineage_fields lineage = field "kind" (text lineage.kind) (
    field "predecessor_run_id" (text_or_null lineage.predecessor_run_id)
      (field "predecessor_digest" (text_or_null lineage.predecessor_digest) empty))

abbrev pub run_envelope_fields : ArchitectureRunEnvelope → Fields
run_envelope_fields envelope = field "schema" (text envelope.schema) (
    field "run_id" (text envelope.run_id) (
      field "loop" (object (repair_loop_fields envelope.loop)) (
        field "trigger" (object (repair_trigger_fields envelope.trigger)) (
          field "discovery" (object (repair_discovery_fields envelope.discovery)) (
            field "budgets" (object (repair_budgets_fields envelope.budgets)) (
              field "governance" (object (envelope_governance_fields envelope.governance)) (
                field "routing" (object (repair_routing_fields envelope.routing)) (
                  field "created_at" (text envelope.created_at) (
                    field "expires_at" (text envelope.expires_at) (
                      field "canonical_digest" (text envelope.canonical_digest) (
                        field "predecessor_digest" (text_or_null envelope.predecessor_digest) (
                          field "lineage" (object (repair_lineage_fields envelope.lineage)) (
                            field "stop_conditions" (array (texts envelope.stop_conditions)) (
                              field "terminal_statuses" (array (texts envelope.terminal_statuses))
                                empty))))))))))))))

abbrev candidate_eligibility_fields : ArchitectureCandidateEligibility → Fields
candidate_eligibility_fields eligibility = field "open_bug" (boolean eligibility.open_bug) (
    field "target_in_repository" (boolean eligibility.target_in_repository) (
      field "no_existing_fix" (boolean eligibility.no_existing_fix) (
        field "current_head_unfixed" (boolean eligibility.current_head_unfixed) (
          field "security_sensitive" (boolean eligibility.security_sensitive) (
            field "public_reproduction_feasible" (boolean eligibility.public_reproduction_feasible)
              (field "deterministic_local_reproduction"
                (boolean eligibility.deterministic_local_reproduction)
                (field "expected_behavior_grounded" (boolean eligibility.expected_behavior_grounded)
                  (field "bounded_policy_compatible" (boolean eligibility.bounded_policy_compatible)
                    empty))))))))

abbrev pub candidate_decision_fields : ArchitectureCandidateDecision → Fields
candidate_decision_fields candidate = field "schema" (text candidate.schema) (
    field "run_id" (text candidate.run_id) (
      field "repository" (text candidate.repository) (
        field "base_sha" (text candidate.base_sha) (
          field "issue_number" (number (decimal_int candidate.issue_number)) (
            field "rank" (number (decimal_int candidate.rank)) (
              field "decision" (text candidate.decision) (
                field "eligibility" (object (candidate_eligibility_fields candidate.eligibility)) (
                  field "reason_codes" (array (texts candidate.reason_codes)) (
                    field "evidence_digests" (array (texts candidate.evidence_digests)) (
                      field "expected_behavior_source" (text candidate.expected_behavior_source) (
                        field "decided_at" (text candidate.decided_at) (
                          field "decision_digest" (text candidate.decision_digest) empty))))))))))))

abbrev merge_decision_fields : ArchitectureMergeDecision → Fields
merge_decision_fields decision = field "authorized" (boolean decision.authorized) (
    field "mode" (text decision.mode) (
      field "approval_kind" (text decision.approval_kind) (
        field "approval_head_sha" (text_or_null decision.approval_head_sha) (
          field "auto_merge_opt_in" (boolean decision.auto_merge_opt_in) (
            field "branch_protection_bypassed" (boolean decision.branch_protection_bypassed)
              empty)))))

abbrev required_check_fields : ArchitectureRequiredCheck → Fields
required_check_fields check =
    field "name" (text check.name)
      (field "conclusion" (text check.conclusion) (field "head_sha" (text check.head_sha) empty))

unfoldable pub required_checks_items : List ArchitectureRequiredCheck → Items
required_checks_items [] = nil
required_checks_items (c ∷ checks) =
    cons (object (required_check_fields c)) (required_checks_items checks)

abbrev pub governance_decision_fields : ArchitectureGovernanceDecision → Fields
governance_decision_fields governance = field "schema" (text governance.schema) (
    field "run_id" (text governance.run_id) (
      field "repository" (text governance.repository) (
        field "base_sha" (text governance.base_sha) (
          field "head_sha" (text governance.head_sha) (
            field "governance_class" (text governance.governance_class) (
              field "classification_sources" (array (texts governance.classification_sources)) (
                field "push_target" (text governance.push_target) (
                  field "pull_request_mode" (text governance.pull_request_mode) (
                    field "merge" (object (merge_decision_fields governance.merge)) (
                      field "protected_path_touched" (boolean governance.protected_path_touched) (
                        field "required_checks"
                          (array (required_checks_items governance.required_checks))
                          (field "action_digest_required"
                            (boolean governance.action_digest_required)
                            (field "decided_at" (text governance.decided_at) (
                              field "decision_digest" (text governance.decision_digest)
                                empty))))))))))))))

abbrev pub reviewer_independence_fields : ArchitectureReviewerIndependence → Fields
reviewer_independence_fields reviewer = field "schema" (text reviewer.schema) (
    field "run_id" (text reviewer.run_id) (
      field "subject_digest" (text reviewer.subject_digest) (
        field "reviewer_id" (text reviewer.reviewer_id) (
          field "status" (text reviewer.status) (
            field "deterministic_tests_primary" (boolean reviewer.deterministic_tests_primary) (
              field "satisfies_team_merge_gate" (boolean reviewer.satisfies_team_merge_gate) (
                field "reviewed_at" (text reviewer.reviewed_at)
                  (field "review_digest" (text reviewer.review_digest) empty))))))))

abbrev pub github_action_digest_fields : ArchitectureGitHubActionDigest → Fields
github_action_digest_fields action = field "schema" (text action.schema) (
    field "run_id" (text action.run_id) (
      field "repository" (text action.repository) (
        field "issue_number" (number (decimal_int action.issue_number)) (
          field "base_sha" (text action.base_sha) (
            field "head_sha" (text action.head_sha) (
              field "fork" (text_or_null action.fork) (
                field "branch" (text action.branch) (
                  field "pr_title_digest" (text action.pr_title_digest) (
                    field "pr_body_digest" (text action.pr_body_digest) (
                      field "diff_digest" (text action.diff_digest) (
                        field "required_checks"
                          (array (required_checks_items action.required_checks))
                          (field "action" (text action.action) (
                            field "approved_at" (text action.approved_at) (
                              field "expires_at" (text action.expires_at) (
                                field "run_envelope_digest" (text action.run_envelope_digest) (
                                  field "candidate_decision_digest"
                                    (text action.candidate_decision_digest)
                                    (field "governance_decision_digest"
                                      (text action.governance_decision_digest)
                                      (field "reviewer_independence_digest"
                                        (text action.reviewer_independence_digest)
                                        (field "action_digest" (text action.action_digest)
                                          empty)))))))))))))))))))

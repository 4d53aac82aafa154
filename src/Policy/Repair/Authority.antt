-- ===== src/Policy/Repair/Authority.antt =====
-- `validateArchitectureRepairAuthority` of internal/policy/autonomous_repair_architecture.go: whether
-- the five documents of a write request authorise its action. A reason is an error, and "" is success.
pub mod Checks
pub mod Bound
pub mod Texts
use ao_covenant.Base.{
  ℕ, String, ◌<>◌, Bool, true, false, not, ◌&&◌, ◌||◌, Option, none, some, List, [], ◌∷◌, ◌==◌,
  contains_string, if◌then◌else◌, Outcome, ok, err, fail_if, ◌>>◌, each,
}
use ao_covenant.Integers.{ℤ, same_int, decimal_int}
use ao_covenant.Json.{Fields}
use ao_covenant.Text.{Host}
use ao_covenant.Policy.Repair.Documents.{
  ArchitectureRunEnvelope, ArchitectureCandidateDecision, ArchitectureGovernanceDecision,
  ArchitectureReviewerIndependence, ArchitectureGitHubActionDigest,
  ArchitectureCandidateEligibility,
}
use ao_covenant.Policy.Repair.Types.{
  AutonomousRepairGovernancePolicy, AutonomousRepairRepositoryPolicy,
  AutonomousRepairGovernanceRequest,
}
use ao_covenant.Policy.Repair.Encoding.{
  run_envelope_fields, candidate_decision_fields, governance_decision_fields,
  reviewer_independence_fields, github_action_digest_fields,
}
use ao_covenant.Policy.Repair.Strings.{every_string_in, same_unique_strings}
use ao_covenant.Policy.Repair.Governance.{Check}
use ao_covenant.Policy.Repair.Canonical.{architecture_canonical_digest}
use ao_covenant.Policy.Repair.Shapes.{valid_architecture_document_shapes}
use ao_covenant.Policy.Repair.Schedule.{validate_architecture_chronology}
use ao_covenant.Policy.Repair.Routing.{validate_architecture_routing, validate_architecture_checks}
use ao_covenant.Policy.Repair.ActionClass.{validate_architecture_action_class}

-- Go's library, SHA-256 in hexadecimal, and the JSON schema of a request (internal/schema).
pub record Services : Type 0 where
  pub host : Host
  pub sha256 : String → String
  pub schema_accepts : AutonomousRepairGovernanceRequest → Bool

-- The five documents of a request.
pub record Authority : Type 0 where
  pub envelope : ArchitectureRunEnvelope
  pub candidate : ArchitectureCandidateDecision
  pub governance : ArchitectureGovernanceDecision
  pub reviewer : ArchitectureReviewerIndependence
  pub action : ArchitectureGitHubActionDigest

unfoldable pub candidate_eligible : ArchitectureCandidateEligibility → Bool
candidate_eligible eligibility =
    eligibility.open_bug
    && eligibility.target_in_repository
    && eligibility.no_existing_fix
    && eligibility.current_head_unfixed
    && not eligibility.security_sensitive
    && eligibility.public_reproduction_feasible
    && eligibility.deterministic_local_reproduction
    && eligibility.expected_behavior_grounded
    && eligibility.bounded_policy_compatible

-- A document's fields, the field that holds its digest, and the digest that it holds.
abbrev pub documents : Authority → List (Fields × String × String)
documents a =
    (run_envelope_fields a.envelope, "canonical_digest", a.envelope.canonical_digest)
    ∷ (candidate_decision_fields a.candidate, "decision_digest", a.candidate.decision_digest)
    ∷ (governance_decision_fields a.governance, "decision_digest", a.governance.decision_digest)
    ∷ (reviewer_independence_fields a.reviewer, "review_digest", a.reviewer.review_digest)
    ∷ (github_action_digest_fields a.action, "action_digest", a.action.action_digest)
    ∷ []

unfoldable pub check_digest : (String → String) → Fields × String × String → Check
check_digest sha256 (document, excluded_field, got) =
    fail_if (not (architecture_canonical_digest sha256 document excluded_field == got))
      "canonical_digest_mismatch"

abbrev pub same_issue : Option ℤ → ℤ → Bool
same_issue none n = false
same_issue (some m) n = same_int m n

-- From the digest of the approved action to the links between the documents.
unfoldable pub check_binding : AutonomousRepairGovernanceRequest → Authority → Check
check_binding request a =
    fail_if (not (request.approved_action_digest == a.action.action_digest))
      "approved_action_digest_mismatch"
    >> fail_if
        (not (a.envelope.run_id == a.action.run_id)
          || not (a.candidate.run_id == a.action.run_id)
          || not (a.governance.run_id == a.action.run_id)
          || not (a.reviewer.run_id == a.action.run_id))
        "authority_run_mismatch"
    >> fail_if
        (not (request.repository == a.action.repository)
          || not (a.envelope.trigger.repository == a.action.repository)
          || not (a.candidate.repository == a.action.repository)
          || not (a.governance.repository == a.action.repository))
        "authority_repository_mismatch"
    >> fail_if
        (not (same_issue request.issue_number a.action.issue_number)
          || not (same_int a.candidate.issue_number a.action.issue_number))
        "authority_issue_mismatch"
    >> fail_if
        (not (a.envelope.trigger.mode == "explicit_issue")
          || not (
              a.envelope.trigger.canonical_url
              == "https://github.com/"
                <> a.action.repository
                <> "/issues/"
                <> decimal_int a.action.issue_number))
        "authority_issue_url_mismatch"
    >> fail_if (not (request.action == a.action.action)) "authority_action_mismatch"
    >> fail_if
        (not (request.current_base_sha == a.action.base_sha)
          || not (a.envelope.trigger.pinned_base_commit == a.action.base_sha)
          || not (a.envelope.routing.pinned_base_commit == a.action.base_sha)
          || not (a.candidate.base_sha == a.action.base_sha)
          || not (a.governance.base_sha == a.action.base_sha))
        "authority_base_mismatch"
    >> fail_if (not (a.governance.head_sha == a.action.head_sha)) "authority_head_mismatch"
    >> fail_if
        (not (a.action.run_envelope_digest == a.envelope.canonical_digest)
          || not (a.action.candidate_decision_digest == a.candidate.decision_digest)
          || not (a.action.governance_decision_digest == a.governance.decision_digest)
          || not (a.action.reviewer_independence_digest == a.reviewer.review_digest))
        "authority_digest_link_mismatch"

unfoldable pub touches_risky_path : List String → List String → Bool
touches_risky_path risky [] = false
touches_risky_path risky (path_class ∷ classes) =
    let rest = touches_risky_path risky classes in
    if contains_string risky path_class then true else rest

unfoldable pub check_candidate :
    AutonomousRepairGovernancePolicy → AutonomousRepairGovernanceRequest → Authority → Check
check_candidate policy request a =
    let derived_protected_path =
      touches_risky_path policy.risky_path_classes request.changed_path_classes in
    fail_if
      (not (a.candidate.decision == "selected") || not (candidate_eligible a.candidate.eligibility))
      (if a.candidate.eligibility.security_sensitive
        then "security_sensitive"
        else "candidate_not_eligible")
    >> fail_if
        (if derived_protected_path
          then not a.governance.protected_path_touched
          else a.governance.protected_path_touched)
        "protected_path_classification_mismatch"
    >> fail_if derived_protected_path "protected_path"

abbrev pub differ : Bool → Bool → Bool
differ p q = if p then not q else q

unfoldable pub check_repository_policy :
    AutonomousRepairGovernancePolicy → AutonomousRepairRepositoryPolicy → Bool → Authority → Check
check_repository_policy policy repository_policy explicitly_configured a =
    let limits = a.envelope.governance in
    fail_if
      (not (limits.ownership_class == repository_policy.repository_class)
        || not (a.governance.governance_class == repository_policy.repository_class)
        || differ limits.sole_control_auto_merge_opt_in repository_policy.sole_auto_merge_opt_in
        || not (a.governance.push_target == repository_policy.push_target)
        || not (a.governance.pull_request_mode == repository_policy.pull_request_mode)
        || not (
            same_unique_strings a.envelope.routing.required_checks
              repository_policy.required_checks)
        || not (
            same_unique_strings a.envelope.routing.protected_path_classes policy.risky_path_classes)
        || not (contains_string limits.allowed_actions a.action.action)
        || not (every_string_in limits.allowed_actions repository_policy.allowed_actions)
        || not (contains_string repository_policy.allowed_actions a.action.action))
      "repository_policy_mismatch"
    >> fail_if
        (not (
          same_unique_strings a.governance.classification_sources
            ((if explicitly_configured then "repository_policy" else "unknown_default") ∷ [])))
        "classification_provenance_mismatch"
    >> fail_if
        (repository_policy.repository_class == "external"
          && (not (contains_string limits.denied_actions "open_ready_pr")
              || not (contains_string limits.denied_actions "approve_review")
              || not (contains_string limits.denied_actions "merge")
              || not (contains_string limits.denied_actions "mutate_issue")))
        "external_permanent_denials_missing"
    >> fail_if a.governance.merge.branch_protection_bypassed "branch_protection_bypass"

unfoldable pub check_reviewer : Authority → Check
check_reviewer a =
    fail_if
      (not (a.reviewer.subject_digest == a.action.diff_digest)
        || not a.reviewer.deterministic_tests_primary)
      "reviewer_binding_mismatch"

module _ (services : Services) (policy : AutonomousRepairGovernancePolicy)
    (repository_policy : AutonomousRepairRepositoryPolicy) (explicitly_configured : Bool)
    (request : AutonomousRepairGovernanceRequest) (now : ℕ) where
  unfoldable pub validate_authority : Authority → Check
  validate_authority a =
      fail_if
        (not (
          valid_architecture_document_shapes services.host a.envelope a.candidate a.governance
            a.reviewer a.action))
        "malformed_canonical_authority"
      >> each (check_digest services.sha256) (documents a)
      >> check_binding request a
      >> check_candidate policy request a
      >> check_repository_policy policy repository_policy explicitly_configured a
      >> validate_architecture_routing repository_policy a.envelope a.governance a.action
      >> validate_architecture_checks repository_policy.required_checks a.governance a.action
      >> check_reviewer a
      >> validate_architecture_chronology services.host a.envelope a.candidate a.governance
          a.reviewer a.action now
      >> validate_architecture_action_class services.host repository_policy a.governance a.reviewer
          a.action

abbrev pub canonical_authority :
    Option ArchitectureRunEnvelope
    → Option ArchitectureCandidateDecision
    → Option ArchitectureGovernanceDecision
    → Option ArchitectureReviewerIndependence
    → Option ArchitectureGitHubActionDigest
    → Outcome String Authority
canonical_authority (some e) (some c) (some g) (some r) (some d) =
    ok (record { envelope = e; candidate = c; governance = g; reviewer = r; action = d })
canonical_authority _ _ _ _ _ = err "missing_canonical_authority"

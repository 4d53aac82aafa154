-- ===== src/Tests/Requests.antt =====
-- Requests for autonomous repairs that are authorised: in a repository of another owner, in a team's
-- and in a sole owner's.
use ao_covenant.Base.{
  ℕ, ◌/◌, ◌%◌, String, ◌<>◌, Bool, true, false, Option, none, some, List, [], ◌∷◌, if◌then◌else◌,
  ◌==◌,
}
use ao_covenant.Integers.{pos}
use ao_covenant.Policy.Repair.Documents.{
  ArchitectureRunEnvelope, ArchitectureCandidateDecision, ArchitectureGovernanceDecision,
  ArchitectureMergeDecision, ArchitectureReviewerIndependence, ArchitectureGitHubActionDigest,
  ArchitectureRequiredCheck,
}
use ao_covenant.Policy.Repair.Types.{
  AutonomousRepairRepositoryPolicy, AutonomousRepairGovernancePolicy,
  AutonomousRepairGovernanceRequest, autonomous_repair_risky_path_classes,
}
use ao_covenant.Policy.Repair.Encoding.{
  run_envelope_fields, candidate_decision_fields, governance_decision_fields,
  reviewer_independence_fields, github_action_digest_fields,
}
use ao_covenant.Policy.Repair.Strings.{rune_count}
use ao_covenant.Policy.Repair.Governance.{required_schemas, permanently_denied, draft_actions}
use ao_covenant.Policy.Repair.Canonical.{hex_digit, architecture_canonical_digest}
use ao_covenant.Policy.Repair.Authority.{Services, Authority}
use ao_covenant.Tests.Samples.{host}

-- A stand-in for SHA-256: the length of the text in two hexadecimal digits.
unfoldable pub toy_sha : String → String
toy_sha s =
    let n = rune_count s in
    hex_digit (n / 16 % 16)
    <> hex_digit (n % 16)
    <> "00000000000000000000000000000000000000000000000000000000000000"

abbrev clock : String → Option ℕ
clock s =
    if s == "created"
    then some 100000000000
    else if s == "decided"
    then some 101000000000
    else if s == "approved"
    then some 102000000000
    else if s == "expires"
    then some 160000000000
    else none

abbrev pub services : Services
services = record {
  host = record { lower_rune = host.lower_rune; quote = host.quote; parse_time = clock };
  sha256 = toy_sha;
  schema_accepts = λ request. request.mode == "write";
}

abbrev pub noon : ℕ
noon = 110000000000

abbrev base_sha : String
base_sha = "0123456789abcdef0123456789abcdef01234567"

abbrev head_sha : String
head_sha = "89abcdef0123456789abcdef0123456789abcdef"

abbrev diff : String
diff = "d1ff000000000000000000000000000000000000000000000000000000000000"

abbrev repository_of :
    String → String → String → Bool → List String → AutonomousRepairRepositoryPolicy
repository_of repository_class push_target pull_request_mode opt_in actions = record {
  repository_class = repository_class;
  sole_auto_merge_opt_in = opt_in;
  push_target = push_target;
  pull_request_mode = pull_request_mode;
  required_checks = "build" ∷ [];
  allowed_actions = actions;
}

abbrev external : AutonomousRepairRepositoryPolicy
external = repository_of "external" "operator_owned_fork" "upstream_draft_only" false draft_actions

abbrev team : AutonomousRepairRepositoryPolicy
team =
    repository_of "team" "policy_authorized_branch" "draft_or_ready_by_policy" false
      ("request_merge_queue" ∷ [])

abbrev sole : AutonomousRepairRepositoryPolicy
sole =
    repository_of "sole_control" "policy_authorized_branch" "draft_or_ready_by_policy" true
      ("auto_merge" ∷ [])

abbrev pub policy : AutonomousRepairGovernancePolicy
policy = record {
  schema_version = "covenant.autonomous-repair-governance-policy.v1";
  policy_id = "autonomous-repair-governance-v1";
  architecture_contract = record {
    repository = "uesugitorachiyo/ao-architecture";
    commit = "b8c64860003238ab45fe7c76d7e8950f80a4043b";
    schema_ids = required_schemas;
  };
  defaults = record {
    discovery_mutation_authorized = false;
    issue_text_can_authorize = false;
    repository_text_can_authorize = false;
    unknown_repository_policy = external;
    branch_protection_bypass = false;
  };
  repository_policies = ("team/tool", team) ∷ ("me/notes", sole) ∷ [];
  risky_path_classes = autonomous_repair_risky_path_classes;
  permanently_denied_actions = permanently_denied;
}

abbrev no_merge : ArchitectureMergeDecision
no_merge = record {
  authorized = false;
  mode = "never";
  approval_kind = "none";
  approval_head_sha = none;
  auto_merge_opt_in = false;
  branch_protection_bypassed = false;
}

abbrev queue_merge : ArchitectureMergeDecision
queue_merge = record {
  authorized = true;
  mode = "merge_queue";
  approval_kind = "codeowner";
  approval_head_sha = some head_sha;
  auto_merge_opt_in = false;
  branch_protection_bypassed = false;
}

abbrev auto_merge : ArchitectureMergeDecision
auto_merge = record {
  authorized = true;
  mode = "auto_merge";
  approval_kind = "none";
  approval_head_sha = none;
  auto_merge_opt_in = true;
  branch_protection_bypassed = false;
}

abbrev build_green : ArchitectureRequiredCheck
build_green = record { name = "build"; conclusion = "success"; head_sha = head_sha }

-- The documents for an action in a repository under a policy, before they are sealed by a digest.
module _ (repository action : String) (fork_owner fork : Option String) (source : String)
    (limits : AutonomousRepairRepositoryPolicy) (merge : ArchitectureMergeDecision) where
  abbrev envelope_with : String → ArchitectureRunEnvelope
  envelope_with digest = record {
    schema = "ao.architecture.autonomous-issue-repair.run-envelope.v1";
    run_id = "run-0001";
    loop = record {
      goal = "fix";
      trigger = "issue";
      discovery = "read";
      action = "repair";
      verification = "tests";
      state = "open";
      human_gates = "review";
    };
    trigger = record {
      mode = "explicit_issue";
      canonical_url = "https://github.com/" <> repository <> "/issues/7";
      repository = repository;
      default_branch = "main";
      pinned_base_commit = base_sha;
    };
    discovery = record { snapshot_limit = pos 5; candidate_limit = pos 1; selected_limit = pos 1 };
    budgets = record {
      wall_clock_seconds = pos 60;
      clone_count = pos 1;
      test_runs = pos 1;
      retry_count = pos 0;
      repair_count = pos 1;
      publication_count = pos 1;
    };
    governance = record {
      ownership_class = limits.repository_class;
      allowed_actions = limits.allowed_actions;
      denied_actions = "open_ready_pr" ∷ "approve_review" ∷ "merge" ∷ "mutate_issue" ∷ [];
      sole_control_auto_merge_opt_in = limits.sole_auto_merge_opt_in;
    };
    routing = record {
      default_branch = "main";
      pinned_base_commit = base_sha;
      fork_owner = fork_owner;
      repair_branch = "repair-7";
      protected_path_classes = autonomous_repair_risky_path_classes;
      required_checks = limits.required_checks;
    };
    created_at = "created";
    expires_at = "expires";
    canonical_digest = digest;
    predecessor_digest = none;
    lineage = record { kind = "origin"; predecessor_run_id = none; predecessor_digest = none };
    stop_conditions = [];
    terminal_statuses = [];
  }

  abbrev candidate_with : String → ArchitectureCandidateDecision
  candidate_with digest = record {
    schema = "ao.architecture.autonomous-issue-repair.candidate-decision.v1";
    run_id = "run-0001";
    repository = repository;
    base_sha = base_sha;
    issue_number = pos 7;
    rank = pos 1;
    decision = "selected";
    eligibility = record {
      open_bug = true;
      target_in_repository = true;
      no_existing_fix = true;
      current_head_unfixed = true;
      security_sensitive = false;
      public_reproduction_feasible = true;
      deterministic_local_reproduction = true;
      expected_behavior_grounded = true;
      bounded_policy_compatible = true;
    };
    reason_codes = [];
    evidence_digests = diff ∷ [];
    expected_behavior_source = "tests";
    decided_at = "decided";
    decision_digest = digest;
  }

  abbrev governance_with : String → ArchitectureGovernanceDecision
  governance_with digest = record {
    schema = "ao.architecture.autonomous-issue-repair.governance-decision.v1";
    run_id = "run-0001";
    repository = repository;
    base_sha = base_sha;
    head_sha = head_sha;
    governance_class = limits.repository_class;
    classification_sources = source ∷ [];
    push_target = limits.push_target;
    pull_request_mode = limits.pull_request_mode;
    merge = merge;
    protected_path_touched = false;
    required_checks = build_green ∷ [];
    action_digest_required = true;
    decided_at = "decided";
    decision_digest = digest;
  }

  abbrev reviewer_with : String → ArchitectureReviewerIndependence
  reviewer_with digest = record {
    schema = "ao.architecture.autonomous-issue-repair.reviewer-independence.v1";
    run_id = "run-0001";
    subject_digest = diff;
    reviewer_id = "alice";
    status = "independent";
    deterministic_tests_primary = true;
    satisfies_team_merge_gate = true;
    reviewed_at = "decided";
    review_digest = digest;
  }

  abbrev envelope : ArchitectureRunEnvelope
  envelope = envelope_with (
      architecture_canonical_digest toy_sha (run_envelope_fields (envelope_with ""))
        "canonical_digest")

  abbrev candidate : ArchitectureCandidateDecision
  candidate = candidate_with (
      architecture_canonical_digest toy_sha (candidate_decision_fields (candidate_with ""))
        "decision_digest")

  abbrev governance : ArchitectureGovernanceDecision
  governance = governance_with (
      architecture_canonical_digest toy_sha (governance_decision_fields (governance_with ""))
        "decision_digest")

  abbrev reviewer : ArchitectureReviewerIndependence
  reviewer = reviewer_with (
      architecture_canonical_digest toy_sha (reviewer_independence_fields (reviewer_with ""))
        "review_digest")

  abbrev action_with : String → ArchitectureGitHubActionDigest
  action_with digest = record {
    schema = "ao.architecture.autonomous-issue-repair.github-action-digest.v1";
    run_id = "run-0001";
    repository = repository;
    issue_number = pos 7;
    base_sha = base_sha;
    head_sha = head_sha;
    fork = fork;
    branch = "repair-7";
    pr_title_digest = diff;
    pr_body_digest = diff;
    diff_digest = diff;
    required_checks = build_green ∷ [];
    action = action;
    approved_at = "approved";
    expires_at = "expires";
    run_envelope_digest = envelope.canonical_digest;
    candidate_decision_digest = candidate.decision_digest;
    governance_decision_digest = governance.decision_digest;
    reviewer_independence_digest = reviewer.review_digest;
    action_digest = digest;
  }

  abbrev action_digest : ArchitectureGitHubActionDigest
  action_digest = action_with (
      architecture_canonical_digest toy_sha (github_action_digest_fields (action_with ""))
        "action_digest")

  abbrev authority : Authority
  authority = record {
    envelope = envelope;
    candidate = candidate;
    governance = governance;
    reviewer = reviewer;
    action = action_digest;
  }

  abbrev request : AutonomousRepairGovernanceRequest
  request = record {
    schema_version = "covenant.autonomous-repair-governance-request.v1";
    request_id = "request-1";
    mode = "write";
    repository = repository;
    ownership_class_assertion = some limits.repository_class;
    issue_number = some (pos 7);
    action = action;
    current_base_sha = base_sha;
    changed_path_classes = "source" ∷ [];
    approved_action_digest = action_digest.action_digest;
    run_envelope = some envelope;
    candidate_decision = some candidate;
    governance_decision = some governance;
    reviewer_independence = some reviewer;
    github_action_digest = some action_digest;
  }

abbrev pub draft_request : AutonomousRepairGovernanceRequest
draft_request =
    request "other/lib" "open_upstream_draft_pr" (some "me") (some "me/lib") "unknown_default"
      external no_merge

abbrev pub queue_request : AutonomousRepairGovernanceRequest
queue_request =
    request "team/tool" "request_merge_queue" none none "repository_policy" team queue_merge

abbrev pub merge_request : AutonomousRepairGovernanceRequest
merge_request = request "me/notes" "auto_merge" none none "repository_policy" sole auto_merge

abbrev pub queue_authority : Authority
queue_authority =
    authority "team/tool" "request_merge_queue" none none "repository_policy" team queue_merge

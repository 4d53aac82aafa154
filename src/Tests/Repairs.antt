-- ===== src/Tests/Repairs.antt =====
-- Authorised repairs: a draft for another owner's repository, a team's merge queue, and the automatic
-- merge of a sole owner.
use ao_covenant.Base.{◌≡◌, true, refl, string_dec, each}
use ao_covenant.Base.Dict.{has, lookup}
use ao_covenant.Text.{contains, has_prefix, all_runes, map_runes, decimal}
use ao_covenant.Paths.{split_slash}
use ao_covenant.Policy.Repair.Encoding.{texts, required_checks_items}
use ao_covenant.Policy.Repair.Strings.{
  unique_after, every_string_in, same_unique_strings, valid_repository_name, rune_count,
  matches_run_id, matches_hex, every_sha64, unique_digest_strings, automated_reviewer,
}
use ao_covenant.Policy.Repair.Governance.{
  valid_class_policy, valid_autonomous_repair_repository_policy, valid_repository_policies,
  valid_policy_head, valid_autonomous_repair_governance_policy, autonomous_repair_repository_policy,
  validate_autonomous_repair_request_shape,
}
use ao_covenant.Policy.Repair.Canonical.{
  hex_digit, unicode_escape, surrogate_escapes, write_rune, write_runes,
  write_architecture_json_string, string_less, join_members, without, architecture_canonical_digest,
  write_architecture_canonical_json,
}
use ao_covenant.Policy.Repair.Shapes.{
  valid_architecture_lineage, valid_architecture_envelope_shape, valid_architecture_candidate_shape,
  valid_architecture_merge_shape, well_formed_checks, unique_architecture_check_names,
  valid_architecture_governance_shape, valid_architecture_reviewer_shape,
  valid_architecture_action_shape, valid_architecture_document_shapes,
}
use ao_covenant.Policy.Repair.Schedule.{
  sub, exceeds_seconds, check_times, validate_architecture_chronology,
}
use ao_covenant.Policy.Repair.Routing.{
  repository_name, validate_architecture_routing, check_green, validate_architecture_checks,
}
use ao_covenant.Policy.Repair.ActionClass.{
  claims_merge, team_gate, validate_architecture_action_class,
}
use ao_covenant.Policy.Repair.Authority.{
  Authority, candidate_eligible, check_digest, check_binding, touches_risky_path, check_candidate,
  check_repository_policy, check_reviewer, validate_authority,
}
use ao_covenant.Policy.Repair.Types.{
  AutonomousRepairGovernanceRequest, AutonomousRepairGovernanceDecision,
}
use ao_covenant.Policy.Repair.Schedule.Bounds.{Window}
use ao_covenant.Policy.Repair.Decision.Granted.{Carries, evaluate-class}
use ao_covenant.Policy.Repair.Decision.Draft.{DraftOnly, external-DraftOnly}
use ao_covenant.Policy.Repair.Decision.AutoMerge.{OptedIn, auto_merge-OptedIn}
use ao_covenant.Policy.Repair.Decision.Bound.{
  Bound, mutation-Bound, mutation-Window, HumanApproved, merge_queue-HumanApproved,
}
use ao_covenant.Policy.Repair.Decision.{
  reported_as, mismatched_assertion, class_permission, validate_architecture_repair_authority,
  write_permission, mode_permission, permission, evaluate_autonomous_repair_governance,
}
use ao_covenant.Tests.Requests.{
  toy_sha, services, policy, noon, draft_request, queue_request, merge_request,
}

abbrev decision : AutonomousRepairGovernanceRequest → AutonomousRepairGovernanceDecision
decision request = evaluate_autonomous_repair_governance services policy request noon

all_allowed :
    ((decision draft_request).mutation_authorized ≡ true)
    × ((decision queue_request).mutation_authorized ≡ true)
    × ((decision merge_request).mutation_authorized ≡ true)
unfolding toy_sha unique_after every_string_in same_unique_strings valid_repository_name rune_count
    matches_run_id matches_hex every_sha64 unique_digest_strings automated_reviewer
    valid_class_policy valid_autonomous_repair_repository_policy valid_repository_policies
    valid_policy_head valid_autonomous_repair_governance_policy autonomous_repair_repository_policy
    validate_autonomous_repair_request_shape hex_digit unicode_escape surrogate_escapes write_rune
    write_runes write_architecture_json_string string_less join_members without
    architecture_canonical_digest valid_architecture_lineage valid_architecture_envelope_shape
    valid_architecture_candidate_shape valid_architecture_merge_shape well_formed_checks
    unique_architecture_check_names valid_architecture_governance_shape
    valid_architecture_reviewer_shape valid_architecture_action_shape
    valid_architecture_document_shapes sub exceeds_seconds check_times
    validate_architecture_chronology repository_name validate_architecture_routing check_green
    validate_architecture_checks claims_merge team_gate validate_architecture_action_class
    candidate_eligible check_digest check_binding touches_risky_path check_candidate
    check_repository_policy check_reviewer validate_authority reported_as mismatched_assertion
    class_permission validate_architecture_repair_authority write_permission mode_permission
    permission evaluate_autonomous_repair_governance write_architecture_canonical_json string_dec
    each has lookup contains has_prefix all_runes map_runes decimal split_slash texts
    required_checks_items
all_allowed = (refl, refl, refl)

draft_external : (decision draft_request).repository_class ≡ "external"
unfolding autonomous_repair_repository_policy lookup string_dec
draft_external = evaluate-class services policy draft_request noon

queue_team : (decision queue_request).repository_class ≡ "team"
unfolding autonomous_repair_repository_policy lookup string_dec
queue_team = evaluate-class services policy queue_request noon

external-DraftOnly_example : (a : Authority) × DraftOnly draft_request a
external-DraftOnly_example =
    external-DraftOnly services policy draft_request noon all_allowed.0 draft_external

auto_merge-OptedIn_example : OptedIn policy merge_request
auto_merge-OptedIn_example =
    auto_merge-OptedIn services policy merge_request noon all_allowed.2 refl

mutation-Bound_example : (a : Authority) × Bound services policy draft_request a
mutation-Bound_example = mutation-Bound services policy draft_request noon all_allowed.0

mutation-Window_example :
    (a : Authority) × Carries merge_request a
    × Window services.host a.envelope a.candidate a.governance a.reviewer a.action noon
mutation-Window_example = mutation-Window services policy merge_request noon all_allowed.2

merge_queue-HumanApproved_example :
    (a : Authority) × Carries queue_request a × HumanApproved services.host a
merge_queue-HumanApproved_example =
    merge_queue-HumanApproved services policy queue_request noon all_allowed.1 queue_team refl

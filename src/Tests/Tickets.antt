-- ===== src/Tests/Tickets.antt =====
-- A ticket for one change in two repositories, the second of which depends on the first.
use ao_covenant.Base.{
  ℕ, String, ◌<>◌, true, false, Option, none, some, List, [], ◌∷◌, ◌==◌, if◌then◌else◌, ◌≡◌, refl,
  ok, each, string_dec,
}
use ao_covenant.Base.Dict.{has, lookup}
use ao_covenant.Integers.{ℤ, pos}
use ao_covenant.Json.{
  boolean, number, text, array, object, nil, cons, Fields, empty, field, get, string_field,
  bool_field,
}
use ao_covenant.Policy.Repair.Canonical.{
  hex_digit, unicode_escape, surrogate_escapes, write_rune, write_runes,
  write_architecture_json_string, string_less, join_members, write_architecture_canonical_json,
}
use ao_covenant.Policy.Mutation.Fields.{
  governance_int_field, all_texts, governance_string_slice, all_objects, governance_map_slice,
  governance_json_equivalent, required_object, string_array_contains, digest_approved_scope,
  same_fields, boundaries_true, boundaries_false, Library,
}
use ao_covenant.Policy.Mutation.MultiRepo.{
  all_seen, check_identity, check_entry, check_entries, validate_ordered_multi_repo_plan, by_repo,
  rollback_ready, ci_passed, state_fresh, each_planned, validate_per_repo_rollback,
  validate_per_repo_ci, validate_fresh_repo_state, kill_switch_armed,
  validate_multi_repo_low_risk_authority_scope,
}
use ao_covenant.Policy.Mutation.MultiRepo.Order.{Ordered, plan-Ordered}
use ao_covenant.Policy.Mutation.Ticket.{
  check_request, check_ticket, check_scope, check_scope_digest, check_boundaries,
  validate_mutation_class_authority_ticket,
}

abbrev clock : String → Option ℕ
clock s = if s == "before" then some 5 else if s == "after" then some 20 else none

-- The numerals of this sample.
abbrev numeral : String → ℤ
numeral s = if s == "1" then pos 1 else if s == "2" then pos 2 else pos 0

abbrev library : Library
library = record {
  marshal = write_architecture_canonical_json;
  int_of = numeral;
  sha256 = λ s. "sha of " <> s;
  parse_time = clock;
}

abbrev plan : Fields
plan = field "status" (text "ready") (
    field "order" (array (cons (text "me/base") (cons (text "me/app") nil))) (
      field "ordered_merge_plan"
        (array (
          cons
            (object (
              field "repo" (text "me/base") (
                field "order" (number "1") (
                  field "planned_pr" (text "pr-1")
                    (field "depends_on" (array (nil)) (field "merge_after" (array (nil)) empty))))))
            (cons
              (object (
                field "repo" (text "me/app") (
                  field "order" (number "2") (
                    field "planned_pr" (text "pr-2") (
                      field "depends_on" (array (cons (text "me/base") nil))
                        (field "merge_after" (array (cons (text "me/base") nil)) empty))))))
              nil)))
        empty))

abbrev shared : Fields
shared = field "multi_repo_plan" (object plan) (
    field "per_repo_rollback"
      (array (
        cons
          (object (
            field "repo" (text "me/base") (
              field "status" (text "ready")
                (field "rollback_scope" (array (cons (text "main") nil)) empty))))
          (cons
            (object (
              field "repo" (text "me/app") (
                field "status" (text "ready")
                  (field "rollback_scope" (array (cons (text "main") nil)) empty))))
            nil)))
      (field "ci_by_repo"
        (array (
          cons
            (object (
              field "repo" (text "me/base")
                (field "status" (text "passed") (field "required" (boolean true) empty))))
            (cons
              (object (
                field "repo" (text "me/app")
                  (field "status" (text "passed") (field "required" (boolean true) empty))))
              nil)))
        (field "repo_state_evidence"
          (array (
            cons
              (object (
                field "repo" (text "me/base") (
                  field "status" (text "clean_synced") (
                    field "branch" (text "main") (
                      field "observed_at_utc" (text "before")
                        (field "expires_at_utc" (text "after") empty))))))
              (cons
                (object (
                  field "repo" (text "me/app") (
                    field "status" (text "clean_synced") (
                      field "branch" (text "main") (
                        field "observed_at_utc" (text "before")
                          (field "expires_at_utc" (text "after") empty))))))
                nil)))
          (field "kill_switch"
            (object (field "required" (boolean true) (field "status" (text "armed") empty)))
            (field "allowed_paths" (array (cons (text "docs") nil))
              (field "rollback_required" (boolean true) empty))))))

abbrev request : Fields
request = field "schema_version" (text "ao.foundry.mutation-class-authority-request.v0.1") (
    field "status" (text "pending_covenant_authority") (
      field "mutation_class" (text "multi_repo_low_risk") (
        field "safe_to_request" (boolean true) (
          field "safe_to_execute" (boolean false) (field "request_id" (text "request-1") shared)))))

abbrev scope : Fields
scope = field "mutation_class" (text "multi_repo_low_risk") shared

abbrev ticket : Fields
ticket = field "request_id" (text "request-1") (
    field "approval_state" (text "approved") (
      field "approver_identity" (text "alice") (
        field "consumed" (boolean false) (
          field "expires_at" (text "after") (
            field "mutation_class" (text "multi_repo_low_risk") (
              field "approved_scope" (object scope) (
                field "scope_digest"
                  (object (
                    field "algorithm" (text "sha256") (
                      field "covers" (array (cons (text "approved_scope") nil)) (
                        field "value"
                          (text ("sha of " <> write_architecture_canonical_json (object scope)))
                          empty))))
                  (field "authority_boundaries"
                    (object (
                      field "exact_scope" (boolean true) (
                        field "class_bound" (boolean true) (
                          field "digest_bound" (boolean true) (
                            field "single_use" (boolean true)
                              (field "live_mutation_grant" (boolean false) empty))))))
                    empty))))))))

plan_valid : validate_ordered_multi_repo_plan library plan ≡ ok ("me/base" ∷ "me/app" ∷ [])
unfolding hex_digit unicode_escape surrogate_escapes write_rune write_runes
    write_architecture_json_string string_less join_members write_architecture_canonical_json
    governance_int_field all_texts governance_string_slice all_objects governance_map_slice
    governance_json_equivalent required_object string_array_contains digest_approved_scope
    same_fields boundaries_true boundaries_false all_seen check_identity check_entry check_entries
    validate_ordered_multi_repo_plan by_repo rollback_ready ci_passed state_fresh each_planned
    validate_per_repo_rollback validate_per_repo_ci validate_fresh_repo_state kill_switch_armed
    validate_multi_repo_low_risk_authority_scope check_request check_ticket check_scope
    check_scope_digest check_boundaries validate_mutation_class_authority_ticket has lookup get
    string_field bool_field each string_dec
plan_valid = refl

plan-Ordered_example :
    (entries : List Fields) × (governance_string_slice (get plan "order")
      ≡ some ("me/base" ∷ "me/app" ∷ []))
    × (governance_map_slice (get plan "ordered_merge_plan") ≡ some entries)
    × Ordered library [] 0 ("me/base" ∷ "me/app" ∷ []) entries
plan-Ordered_example = plan-Ordered library plan ("me/base" ∷ "me/app" ∷ []) plan_valid

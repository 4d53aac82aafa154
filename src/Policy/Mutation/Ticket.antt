-- ===== src/Policy/Mutation/Ticket.antt =====
-- `ValidateMutationClassAuthorityTicket` of internal/policy/governance_authority.go.
pub mod Sound
use ao_covenant.Base.{
  ℕ, String, ◌<>◌, Bool, true, false, not, ◌||◌, Option, List, [], ◌∷◌, ◌==◌, contains_string, ltb,
  if◌then◌else◌, Outcome, ok, err, fail_if, each, ◌>>◌, ◌>>=◌,
}
use ao_covenant.Json.{Fields, get}
use ao_covenant.Policy.Mutation.Fields.{
  Check, Library, governance_string_field, governance_bool_field, governance_json_equivalent,
  required_object, string_array_contains, digest_approved_scope, same_fields, boundaries_true,
  boundaries_false, time_or,
}
use ao_covenant.Policy.Mutation.MultiRepo.{validate_multi_repo_low_risk_authority_scope}

abbrev pub mutation_classes : List String
mutation_classes =
    "docs_only_single_file" ∷ "docs_only_multi_file" ∷ "docs_config_only" ∷ "test_only"
    ∷ "low_risk_code" ∷ "multi_repo_low_risk" ∷ "complex_repo_mutation" ∷ []

abbrev pub valid_mutation_class : String → Bool
valid_mutation_class = contains_string mutation_classes

-- The tests of the request, up to its two flags.
unfoldable pub check_request : Fields → Check
check_request request =
    fail_if
      (not (
        governance_string_field request "schema_version"
        == "ao.foundry.mutation-class-authority-request.v0.1"))
      "request schema_version must be ao.foundry.mutation-class-authority-request.v0.1"
    >> fail_if (not (governance_string_field request "status" == "pending_covenant_authority"))
        "request status must be pending_covenant_authority"
    >> fail_if (not (valid_mutation_class (governance_string_field request "mutation_class")))
        "request mutation_class is not supported"
    >> fail_if
        (not (governance_bool_field request "safe_to_request")
          || governance_bool_field request "safe_to_execute")
        "request must be safe_to_request=true and safe_to_execute=false"

-- The tests of the ticket itself, up to its class.
unfoldable pub check_ticket : Library → Fields → Fields → ℕ → Check
check_ticket library request ticket now =
    fail_if
      (not (
        governance_string_field ticket "request_id"
        == governance_string_field request "request_id"))
      "ticket request_id does not match request"
    >> fail_if (not (governance_string_field ticket "approval_state" == "approved"))
        "approval_state must be approved"
    >> fail_if (governance_string_field ticket "approver_identity" == "")
        "approver_identity is required"
    >> fail_if (governance_bool_field ticket "consumed")
        "authority ticket has already been consumed"
    >> (time_or "authority ticket expires_at must be RFC3339"
          (library.parse_time (governance_string_field ticket "expires_at"))
        >>= (λ expires_at. fail_if (not (ltb now expires_at)) "authority ticket expired"))
    >> fail_if
        (not (
          governance_string_field ticket "mutation_class"
          == governance_string_field request "mutation_class"))
        "ticket mutation_class does not match request"

-- The tests of the approved scope against the request.
unfoldable pub check_scope : Library → Fields → Fields → ℕ → Check
check_scope library request ticket_scope now =
    fail_if
      (not (
        governance_string_field ticket_scope "mutation_class"
        == governance_string_field request "mutation_class"))
      "ticket mutation_class does not match request"
    >> same_fields library ticket_scope request ("allowed_paths" ∷ [])
        "ticket path scope is broader than request"
    >> same_fields library ticket_scope request ("max_changed_files" ∷ [])
        "ticket diff limit does not exactly match request"
    >> same_fields library ticket_scope request
        ("repo" ∷ "branch_policy" ∷ "forbidden_paths" ∷ "required_gates" ∷ "authority_boundary"
          ∷ [])
        "ticket scope does not exactly match request"
    >> fail_if
        (not (governance_bool_field request "rollback_required")
          || not (governance_bool_field ticket_scope "rollback_required"))
        "rollback is required for mutation-class authority tickets"
    >> same_fields library ticket_scope request ("rollback_scope" ∷ "rollback_evidence" ∷ [])
        "ticket rollback scope does not exactly match request"
    >> (if governance_string_field request "mutation_class" == "multi_repo_low_risk"
        then validate_multi_repo_low_risk_authority_scope library request ticket_scope now
        else ok tt)

-- The digest of a scope, under the name of the field that holds the scope.
unfoldable pub check_scope_digest : Library → Fields → String → Fields → Check
check_scope_digest library document covered scope =
    required_object document "scope_digest" "scope_digest is required" >>= (λ digest.
      fail_if (not (governance_string_field digest "algorithm" == "sha256"))
        "scope_digest algorithm must be sha256"
      >> fail_if (not (string_array_contains (get digest "covers") covered))
          ("scope_digest must cover " <> covered)
      >> fail_if
          (not (governance_string_field digest "value" == digest_approved_scope library scope))
          ("scope_digest does not match " <> covered))

unfoldable pub check_boundaries : Fields → List String → List String → Check
check_boundaries document demanded refused =
    required_object document "authority_boundaries" "authority_boundaries are required"
    >>= (λ boundaries. boundaries_true boundaries demanded >> boundaries_false boundaries refused)

unfoldable pub validate_mutation_class_authority_ticket : Library → Fields → Fields → ℕ → Check
validate_mutation_class_authority_ticket library request ticket now =
    check_request request
    >> check_ticket library request ticket now
    >> (required_object ticket "approved_scope" "approved_scope is required" >>= (λ ticket_scope.
        check_scope library request ticket_scope now
        >> check_scope_digest library ticket "approved_scope" ticket_scope))
    >> check_boundaries ticket ("exact_scope" ∷ "class_bound" ∷ "digest_bound" ∷ "single_use" ∷ [])
        ("live_mutation_grant" ∷ "provider_calls_allowed" ∷ "release_or_publish_allowed" ∷ [])

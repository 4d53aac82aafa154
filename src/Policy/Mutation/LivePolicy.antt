-- ===== src/Policy/Mutation/LivePolicy.antt =====
-- `ValidateLowRiskCodeLivePolicy` of internal/policy/governance_authority.go.
use ao_covenant.Base.{
  ℕ, String, ◌<>◌, Bool, true, false, not, ◌||◌, Option, some, List, [], ◌∷◌, ◌==◌, eqb, ltb,
  length, if◌then◌else◌, err, fail_if, ◌>>◌, ◌>>=◌,
}
use ao_covenant.Json.{Value, Fields, get}
use ao_covenant.Policy.Mutation.Fields.{
  Check, Library, governance_string_field, governance_bool_field, governance_string_slice,
  required_object,
}
use ao_covenant.Policy.Mutation.MultiRepo.{slice_or}
use ao_covenant.Policy.Mutation.Ticket.{check_scope_digest, check_boundaries}

-- The loop over two lists of one length.
unfoldable pub same_texts : List String → List String → Bool
same_texts [] [] = true
same_texts (got ∷ gots) (want ∷ wants) =
    let rest = same_texts gots wants in if not (got == want) then false else rest
same_texts _ _ = false

unfoldable pub require_exact_string_slice : Option Value → List String → String → Check
require_exact_string_slice value want label =
    slice_or (label <> " must be a string array") (governance_string_slice value) >>= (λ got.
      fail_if (not (eqb (length got) (length want)))
        (label <> " must exactly match selected held candidate")
      >> fail_if (not (same_texts got want))
          (label <> " must exactly match selected held candidate"))

unfoldable pub text_field_is : Fields → String → String → String → Check
text_field_is document key want message =
    fail_if (not (governance_string_field document key == want)) message

unfoldable pub validate_low_risk_code_live_candidate_scope : Fields → Check
validate_low_risk_code_live_candidate_scope scope =
    (required_object scope "dry_run_chain" "dry_run_chain is required" >>= (λ chain.
      text_field_is chain "path" "tmp/low-risk-code-live-rehearsal-20260630/chain/summary.json"
        "dry_run_chain path must be tmp/low-risk-code-live-rehearsal-20260630/chain/summary.json"
      >> text_field_is chain "sha256"
          "046dcdc9a17fcfd60877c8e61d1a15c722f7c34cacdeeb139651f153c6e1196e"
          "dry_run_chain sha256 must match current held rehearsal chain"))
    >> (required_object scope "repo" "repo is required" >>= (λ repo.
        text_field_is repo "id" "ao-atlas" "repo id must be ao-atlas"
        >> text_field_is repo "remote" "uesugitorachiyo/ao-atlas"
            "repo remote must be uesugitorachiyo/ao-atlas"))
    >> text_field_is scope "base_branch" "main" "base_branch must be main"
    >> text_field_is scope "proposed_branch" "codex/low-risk-code-rehearsal-one"
        "proposed_branch must be codex/low-risk-code-rehearsal-one"
    >> text_field_is scope "intent" "behavior-preserving cleanup in internal uniqueStrings helper"
        "intent must match selected held candidate"
    >> require_exact_string_slice (get scope "file_allowlist") ("internal/atlas/validate.go" ∷ [])
        "file_allowlist"
    >> require_exact_string_slice (get scope "command_allowlist")
        ("git diff --check" ∷ "go test ./..." ∷ []) "command_allowlist"
    >> (required_object scope "rollback_plan" "rollback_plan is required" >>= (λ rollback_plan.
        fail_if (not (governance_bool_field rollback_plan "required"))
          "rollback_plan required must be true"
        >> fail_if (governance_string_field rollback_plan "strategy" == "")
            "rollback_plan strategy is required"
        >> require_exact_string_slice (get rollback_plan "scope")
            ("internal/atlas/validate.go" ∷ []) "rollback_plan scope"))

abbrev outside : ℕ → Option ℕ → Option ℕ → Check
outside now (some issued_at) (some expires_at) =
    fail_if (ltb now issued_at || not (ltb now expires_at))
      "low_risk_code live policy is stale or not yet valid"
outside now _ _ = err "policy issued_at and expires_at must be RFC3339"

-- The tests of the policy before its scope.
unfoldable pub check_live_policy : Library → Fields → ℕ → String → Check
check_live_policy library policy now expected_schema_version =
    text_field_is policy "schema_version" expected_schema_version
      ("schema_version must be " <> expected_schema_version)
    >> text_field_is policy "approval_state" "approved" "approval_state must be approved"
    >> fail_if (governance_string_field policy "approver_identity" == "")
        "approver_identity is required"
    >> fail_if (governance_bool_field policy "consumed")
        "low_risk_code live policy has already been consumed"
    >> text_field_is policy "mutation_class" "low_risk_code" "mutation_class must be low_risk_code"
    >> fail_if
        (not (governance_bool_field policy "safe_to_request")
          || governance_bool_field policy "safe_to_execute")
        "policy must be safe_to_request=true and safe_to_execute=false"
    >> outside now (library.parse_time (governance_string_field policy "issued_at"))
        (library.parse_time (governance_string_field policy "expires_at"))

unfoldable pub validate_low_risk_code_live_policy : Library → Fields → ℕ → String → Check
validate_low_risk_code_live_policy library policy now expected_schema_version =
    check_live_policy library policy now expected_schema_version
    >> (required_object policy "candidate_scope" "candidate_scope is required"
        >>= (λ candidate_scope.
            validate_low_risk_code_live_candidate_scope candidate_scope
            >> check_scope_digest library policy "candidate_scope" candidate_scope))
    >> check_boundaries policy
        ("exact_scope" ∷ "class_bound" ∷ "digest_bound" ∷ "single_use" ∷ "single_repo"
          ∷ "single_branch" ∷ [])
        ("live_mutation_grant" ∷ "multi_repo_mutation_allowed" ∷ "complex_repo_mutation_allowed"
          ∷ "fully_unsupervised_complex_mutation_allowed" ∷ "provider_calls_allowed"
          ∷ "release_or_publish_allowed" ∷ [])

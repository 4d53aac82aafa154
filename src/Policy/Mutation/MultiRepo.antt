-- ===== src/Policy/Mutation/MultiRepo.antt =====
-- The scope of a ticket for mutations in several repositories, of internal/policy/governance_authority.go.
pub mod Order
use ao_covenant.Base.{
  ℕ, zero, suc, ◌+◌, String, Bool, true, false, not, ◌||◌, ◌&&◌, Option, none, some, List, [], ◌∷◌,
  ◌==◌, eqb, length, if◌then◌else◌, Outcome, ok, err, fail_if, each, ◌>>◌, ◌>>=◌, ltb,
}
use ao_covenant.Base.Dict.{Dict, lookup, insert, has}
use ao_covenant.Integers.{ℤ, pos, same_int}
use ao_covenant.Json.{Value, Fields, get, as_object, empty}
use ao_covenant.Policy.Mutation.Fields.{
  Check, Library, governance_string_field, governance_bool_field, governance_int_field,
  governance_string_slice, governance_map_slice, governance_json_equivalent, required_object,
  same_fields,
}

abbrev pub plan_error : String
plan_error = "ordered dependency is missing or not earlier"

abbrev pub slice_or {ℓ} : {A : Type ℓ} → String → Option (List A) → Outcome String (List A)
slice_or message none = err message
slice_or message (some values) = ok values

unfoldable pub all_seen : Dict Bool → List String → Check
all_seen seen dependencies =
    each (λ dependency. fail_if (not (has seen dependency)) plan_error) dependencies

-- Who an entry that stands at an index is for, and where it says that it stands.
unfoldable pub check_identity : Library → ℕ → String → Fields → Check
check_identity library index expected entry =
    let repo = governance_string_field entry "repo" in
    fail_if
      (repo == ""
        || not (repo == expected)
        || not (same_int (governance_int_field library entry "order") (pos (index + 1)))
        || governance_string_field entry "planned_pr" == "")
      plan_error

-- One round of the loop over the entries.
unfoldable pub check_entry : Library → Dict Bool → ℕ → String → Fields → Check
check_entry library seen index expected entry =
    check_identity library index expected entry
    >> (slice_or plan_error (governance_string_slice (get entry "depends_on")) >>= (λ dependencies.
        slice_or plan_error (governance_string_slice (get entry "merge_after")) >>= (λ merge_after.
          fail_if
            (not (
              governance_json_equivalent library (get entry "depends_on")
                (get entry "merge_after")))
            plan_error
          >> all_seen seen dependencies
          >> all_seen seen merge_after)))

-- The loop, with the names in `order` that are left. There are as many as entries.
unfoldable pub check_entries :
    Library → Dict Bool → ℕ → List String → List Fields → Outcome String (List String)
check_entries library seen index [] [] = ok []
check_entries library seen index (expected ∷ order) (entry ∷ entries) =
    let repo = governance_string_field entry "repo" in
    let rest = check_entries library (insert repo true seen) (suc index) order entries in
    check_entry library seen index expected entry >> (rest >>= (λ repos. ok (repo ∷ repos)))
check_entries library seen index _ _ = err plan_error

unfoldable pub validate_ordered_multi_repo_plan : Library → Fields → Outcome String (List String)
validate_ordered_multi_repo_plan library plan =
    slice_or plan_error (governance_string_slice (get plan "order")) >>= (λ order.
      fail_if (eqb (length order) 0) plan_error
      >> (slice_or plan_error (governance_map_slice (get plan "ordered_merge_plan")) >>= (λ entries.
          fail_if (not (eqb (length entries) (length order))) plan_error
          >> check_entries library [] 0 order entries)))

-- `byRepo`: the last entry of a repository counts.
unfoldable pub by_repo : Dict Fields → List Fields → Dict Fields
by_repo index [] = index
by_repo index (entry ∷ entries) =
    by_repo (insert (governance_string_field entry "repo") entry index) entries

abbrev no_slice : Option (List String) → Bool
no_slice none = true
no_slice (some []) = true
no_slice (some (s ∷ ss)) = false

unfoldable pub rollback_ready : Option Fields → Bool
rollback_ready none = false
rollback_ready (some entry) =
    governance_string_field entry "status" == "ready"
    && not (no_slice (governance_string_slice (get entry "rollback_scope")))

unfoldable pub ci_passed : Option Fields → Bool
ci_passed none = false
ci_passed (some entry) =
    governance_bool_field entry "required"
    && (governance_string_field entry "status" == "passed"
        || governance_string_field entry "status" == "success")

abbrev current : ℕ → Option ℕ → Option ℕ → Bool
current now (some observed_at) (some expires_at) = not (ltb now observed_at) && ltb now expires_at
current now _ _ = false

unfoldable pub state_fresh : Library → ℕ → Option Fields → Bool
state_fresh library now none = false
state_fresh library now (some entry) =
    governance_string_field entry "status" == "clean_synced"
    && governance_string_field entry "branch" == "main"
    && current now (library.parse_time (governance_string_field entry "observed_at_utc"))
        (library.parse_time (governance_string_field entry "expires_at_utc"))

-- What the three checks of the planned repositories share: the entries by repository, and a test of
-- the entry of each planned one.
unfoldable pub each_planned : (Option Fields → Bool) → String → List String → Option Value → Check
each_planned test message repos value =
    slice_or message (governance_map_slice value) >>= (λ entries.
      each (λ repo. fail_if (not (test (lookup (by_repo [] entries) repo))) message) repos)

unfoldable pub validate_per_repo_rollback : List String → Option Value → Check
validate_per_repo_rollback = each_planned rollback_ready "per-repo rollback is incomplete"

unfoldable pub validate_per_repo_ci : List String → Option Value → Check
validate_per_repo_ci = each_planned ci_passed "per-repo CI is incomplete"

unfoldable pub validate_fresh_repo_state : Library → ℕ → List String → Option Value → Check
validate_fresh_repo_state library now =
    each_planned (state_fresh library now) "repo state evidence is stale"

unfoldable pub kill_switch_armed : Option Value → Bool
kill_switch_armed value =
    governance_bool_field (as_object value) "required"
    && governance_string_field (as_object value) "status" == "armed"

unfoldable pub validate_multi_repo_low_risk_authority_scope : Library → Fields → Fields → ℕ → Check
validate_multi_repo_low_risk_authority_scope library request ticket_scope now =
    same_fields library ticket_scope request
      ("multi_repo_plan" ∷ "per_repo_rollback" ∷ "ci_by_repo" ∷ "repo_state_evidence"
        ∷ "kill_switch" ∷ [])
      "ticket scope does not exactly match multi_repo_low_risk request"
    >> (required_object ticket_scope "multi_repo_plan"
          "multi_repo_low_risk ordered merge plan is required"
        >>= (λ plan.
            fail_if (not (governance_string_field plan "status" == "ready"))
              "multi_repo_low_risk ordered merge plan is not ready"
            >> (validate_ordered_multi_repo_plan library plan >>= (λ planned_repos.
                validate_per_repo_rollback planned_repos (get ticket_scope "per_repo_rollback")
                >> validate_per_repo_ci planned_repos (get ticket_scope "ci_by_repo")
                >> validate_fresh_repo_state library now planned_repos
                    (get ticket_scope "repo_state_evidence")
                >> fail_if (not (kill_switch_armed (get ticket_scope "kill_switch")))
                    "operator kill-switch must be armed for multi_repo_low_risk"))))

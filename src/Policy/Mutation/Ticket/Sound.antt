-- ===== src/Policy/Mutation/Ticket/Sound.antt =====
-- What a ticket that validates has promised.
use ao_covenant.Base.{
  ℕ, ◌<◌, String, Bool, true, false, Option, some, List, [], ◌∷◌, ◌≡◌, ◌≢◌, arith, ok, each, >>-ok,
  >>=-ok, All,
}
use ao_covenant.Base.Dict.{lookup}
use ao_covenant.Json.{Value, object, Fields, get}
use ao_covenant.Policy.Mutation.Fields.{
  Library, governance_string_field, governance_bool_field, governance_map_slice, or_null,
  required_object, digest_approved_scope, boundaries_true, boundaries_false,
}
use ao_covenant.Policy.Mutation.MultiRepo.{
  validate_ordered_multi_repo_plan, by_repo, rollback_ready, ci_passed, state_fresh,
}
use ao_covenant.Policy.Mutation.Ticket.{check_scope_digest, check_boundaries, valid_mutation_class}

required_object-some :
    (document : Fields) (key message : String) {fields : Fields}
    → required_object document key message ≡ ok fields
    → get document key ≡ some (object fields)
unfolding required_object
required_object-some document key message h = ground (arith, h)

module _ (library : Library) where
  -- Both documents have the same JSON text under the key.
  abbrev pub Same : Fields → Fields → String → Type 0
  Same scope request key =
      library.marshal (or_null (get scope key)) ≡ library.marshal (or_null (get request key))

  -- The repository's entry among those of the evidence, the last one that names it, passes the test.
  abbrev pub Planned : (Option Fields → Bool) → Option Value → String → Type 0
  Planned test value repo =
      (entries : List Fields) × (governance_map_slice value ≡ some entries)
      × (test (lookup (by_repo [] entries) repo) ≡ true)

  -- The ordered plan of a scope, with what each planned repository must have ready.
  pub record PlanReady (scope : Fields) (now : ℕ) : Type 0 where
    pub plan : Fields
    pub repos : List String
    pub plan_found : get scope "multi_repo_plan" ≡ some (object plan)
    pub ordered : validate_ordered_multi_repo_plan library plan ≡ ok repos
    pub rollback : All (Planned rollback_ready (get scope "per_repo_rollback")) repos
    pub ci : All (Planned ci_passed (get scope "ci_by_repo")) repos
    pub state : All (Planned (state_fresh library now) (get scope "repo_state_evidence")) repos

  pub record TicketHolds (request ticket : Fields) (now : ℕ) : Type 0 where
    pub same_request :
        governance_string_field ticket "request_id" ≡ governance_string_field request "request_id"
    pub approved : governance_string_field ticket "approval_state" ≡ "approved"
    pub approver : governance_string_field ticket "approver_identity" ≢ ""
    pub unused : governance_bool_field ticket "consumed" ≡ false
    pub expires_at : ℕ
    pub expiry : library.parse_time (governance_string_field ticket "expires_at") ≡ some expires_at
    pub unexpired : now < expires_at
    pub same_class :
        governance_string_field ticket "mutation_class"
        ≡ governance_string_field request "mutation_class"

  pub record ScopeHolds (request scope : Fields) (now : ℕ) : Type 0 where
    pub paths : All (Same scope request) ("allowed_paths" ∷ [])
    pub limit : All (Same scope request) ("max_changed_files" ∷ [])
    pub exact : All (Same scope request) (
        "repo" ∷ "branch_policy" ∷ "forbidden_paths" ∷ "required_gates" ∷ "authority_boundary" ∷ [])
    pub rollback_required : governance_bool_field scope "rollback_required" ≡ true
    pub rollback : All (Same scope request) ("rollback_scope" ∷ "rollback_evidence" ∷ [])
    pub plan_ready :
        governance_string_field request "mutation_class" ≡ "multi_repo_low_risk"
        → PlanReady scope now

  -- The digest of the document is that of the scope.
  pub record Digested (document scope : Fields) : Type 0 where
    pub digest : Fields
    pub digest_found : get document "scope_digest" ≡ some (object digest)
    pub value : governance_string_field digest "value" ≡ digest_approved_scope library scope

  pub check_scope_digest-Digested :
      (document : Fields) (covered : String) (scope : Fields)
      → check_scope_digest library document covered scope ≡ ok tt
      → Digested document scope
  unfolding check_scope_digest
  check_scope_digest-Digested document covered scope h =
      let (digest, found, h1) = >>=-ok _ _ h in
      record {
        digest = digest;
        digest_found = required_object-some document "scope_digest" _ found;
        value = ground (arith, h1);
      }

-- Every demanded boundary is set, and no refused one is.
pub record Bounded (document : Fields) (demanded refused : List String) : Type 0 where
  pub boundaries : Fields
  pub boundaries_found : get document "authority_boundaries" ≡ some (object boundaries)
  pub demanded_set : All (λ f. governance_bool_field boundaries f ≡ true) demanded
  pub refused_clear : All (λ f. governance_bool_field boundaries f ≡ false) refused

boundaries_true-All :
    (boundaries : Fields) (fields : List String)
    → boundaries_true boundaries fields ≡ ok tt
    → All (λ f. governance_bool_field boundaries f ≡ true) fields
unfolding boundaries_true each
boundaries_true-All boundaries [] h = tt
boundaries_true-All boundaries (f ∷ fields) h =
    (ground (arith, h), boundaries_true-All boundaries fields (ground (arith, h)))

boundaries_false-All :
    (boundaries : Fields) (fields : List String)
    → boundaries_false boundaries fields ≡ ok tt
    → All (λ f. governance_bool_field boundaries f ≡ false) fields
unfolding boundaries_false each
boundaries_false-All boundaries [] h = tt
boundaries_false-All boundaries (f ∷ fields) h =
    (ground (arith, h), boundaries_false-All boundaries fields (ground (arith, h)))

pub check_boundaries-Bounded :
    (document : Fields) (demanded refused : List String)
    → check_boundaries document demanded refused ≡ ok tt
    → Bounded document demanded refused
unfolding check_boundaries
check_boundaries-Bounded document demanded refused h =
    let (boundaries, found, h1) = >>=-ok _ _ h in
    let (set, clear) = >>-ok _ _ h1 in
    record {
      boundaries = boundaries;
      boundaries_found = required_object-some document "authority_boundaries" _ found;
      demanded_set = boundaries_true-All boundaries demanded set;
      refused_clear = boundaries_false-All boundaries refused clear;
    }

module _ (library : Library) (request ticket : Fields) (now : ℕ) where
  pub record Authorises : Type 0 where
    pub pending : governance_string_field request "status" ≡ "pending_covenant_authority"
    pub known_class : valid_mutation_class (governance_string_field request "mutation_class") ≡ true
    pub ticket_holds : TicketHolds library request ticket now
    pub scope : Fields
    pub scope_found : get ticket "approved_scope" ≡ some (object scope)
    pub scope_holds : ScopeHolds library request scope now
    pub digested : Digested library ticket scope
    pub bounded :
        Bounded ticket
          ("exact_scope" ∷ "class_bound" ∷ "digest_bound" ∷ "single_use" ∷ [])
          ("live_mutation_grant" ∷ "provider_calls_allowed" ∷ "release_or_publish_allowed" ∷ [])

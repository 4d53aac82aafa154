-- ===== src/Policy/ClaimGate.antt =====
-- internal/policy/claim_gate.go: the gate for publishing the full autonomous RSI claim.
pub mod Exact
pub mod Blockers
use ao_covenant.Base.{
  ℕ, String, Bool, true, false, not, ◌&&◌, List, [], ◌∷◌, ◌++◌, eqb, length, ◌==◌, if◌then◌else◌,
}
use ao_covenant.Json.{
  Value, Items, Fields, nil, cons, object, get, as_array, nested_map, string_field, bool_field,
  string_slice_field,
}
use ao_covenant.Policy.Types.{decision_allow, decision_deny}

abbrev pub claim_publish_gate_schema_version : String
claim_publish_gate_schema_version = "covenant.rsi-claim-publish-gate.v1"

pub record ClaimPublishGateInput : Type 0 where
  pub claim_readiness : Fields
  pub readback_index : Fields

pub record ClaimPublishGateBlocker : Type 0 where
  pub id : String
  pub evidence_state : String
  pub required_evidence : String

pub record ClaimReadinessObservation : Type 0 where
  pub schema_version : String
  pub status : String
  pub full_claim_decision : String
  pub claim_publish_approved : Bool

pub record LiveSelfChangeReadbackIndexObservation : Type 0 where
  pub schema_version : String
  pub status : String
  pub control_plane_readback_status : String
  pub retained_claim_level_evidence_status : String
  pub full_claim_boundary_decision : String

pub record ClaimPublishGateObservedEvidence : Type 0 where
  pub claim_readiness : ClaimReadinessObservation
  pub live_self_change_readback_index : LiveSelfChangeReadbackIndexObservation

pub record ClaimPublishGateTrustBoundary : Type 0 where
  pub local_only : Bool
  pub uses_network : Bool
  pub mutates_repositories : Bool
  pub publishes_claims : Bool
  pub approves_rsi_claims : Bool
  pub stores_credentials : Bool

pub record ClaimPublishGateResult : Type 0 where
  pub schema_version : String
  pub claim_level : String
  pub claim_publish_resource : String
  pub status : String
  pub decision : String
  pub publish_authority : Bool
  pub reason : String
  pub blocker_count : ℕ
  pub blockers : List ClaimPublishGateBlocker
  pub observed_evidence : ClaimPublishGateObservedEvidence
  pub trust_boundary : ClaimPublishGateTrustBoundary

unfoldable pub has_id : List ClaimPublishGateBlocker → String → Bool
has_id [] id = false
has_id (b ∷ blockers) id = let rest = has_id blockers id in if b.id == id then true else rest

unfoldable pub append_blocker_if_missing :
    List ClaimPublishGateBlocker → ClaimPublishGateBlocker → List ClaimPublishGateBlocker
append_blocker_if_missing blockers blocker =
    if blocker.id == ""
    then blockers
    else if has_id blockers blocker.id
    then blockers
    else blockers ++ blocker ∷ []

abbrev or_default : String → String → String
or_default value default = if value == "" then default else value

abbrev blocker_of_map : Fields → ClaimPublishGateBlocker
blocker_of_map blocker = record {
  id = string_field blocker "id";
  evidence_state = or_default (string_field blocker "evidence_state") "missing";
  required_evidence =
      or_default (string_field blocker "required_evidence")
        "claim-publish blocker remains unresolved";
}

-- The loop of `claimReadinessBlockers`. An entry with no id leaves the list as it is, here by
-- the same test in `append_blocker_if_missing`.
unfoldable pub readiness_blockers_onto :
    List ClaimPublishGateBlocker → Items → List ClaimPublishGateBlocker
readiness_blockers_onto blockers nil = blockers
readiness_blockers_onto blockers (cons (object entry) items) =
    readiness_blockers_onto (append_blocker_if_missing blockers (blocker_of_map entry)) items
readiness_blockers_onto blockers (cons _ items) = readiness_blockers_onto blockers items

unfoldable pub claim_readiness_blockers : Fields → List ClaimPublishGateBlocker
unfolding readiness_blockers_onto
claim_readiness_blockers full_claim =
    readiness_blockers_onto [] (as_array (get full_claim "blockers"))

unfoldable pub blocker_for_id : String → ClaimPublishGateBlocker
blocker_for_id id =
    if id == "covenant_claim_publish_approval"
    then record {
      id = id;
      evidence_state = "missing";
      required_evidence =
          "Covenant approval to publish the full autonomous self-mutating RSI claim";
    }
    else if id == "rehearsal_not_claim_publish_evidence"
    then record {
      id = id;
      evidence_state = "blocking";
      required_evidence =
          "live rehearsal and readback evidence must not be treated as claim-publish authority";
    }
    else record {
      id = id;
      evidence_state = "blocking";
      required_evidence = "claim-publish blocker remains unresolved";
    }

-- `for _, id := range stringSliceField(fullBoundary, "remaining_blockers")`
unfoldable pub remaining_blockers_onto :
    List ClaimPublishGateBlocker → List String → List ClaimPublishGateBlocker
unfolding blocker_for_id
remaining_blockers_onto blockers [] = blockers
remaining_blockers_onto blockers (id ∷ ids) =
    remaining_blockers_onto (append_blocker_if_missing blockers (blocker_for_id id)) ids

abbrev pub missing_evidence : String → String → ClaimPublishGateBlocker
missing_evidence id required_evidence = record {
  id = id;
  evidence_state = "missing";
  required_evidence = required_evidence;
}

unfoldable pub append_if :
    Bool → ClaimPublishGateBlocker → List ClaimPublishGateBlocker → List ClaimPublishGateBlocker
append_if test blocker blockers =
    if test then append_blocker_if_missing blockers blocker else blockers

module _ (input : ClaimPublishGateInput) where
  abbrev pub full_claim : Fields
  full_claim =
      nested_map input.claim_readiness ("claims" ∷ "full_autonomous_self_mutating_rsi" ∷ [])

  abbrev pub full_boundary : Fields
  full_boundary = nested_map input.readback_index ("full_claim_boundary" ∷ [])

  unfoldable pub observed : ClaimPublishGateObservedEvidence
  observed =
      let partial_readback =
        nested_map full_claim ("partial_evidence" ∷ "live_self_change_readback_index" ∷ []) in
      let readback_source =
        nested_map input.readback_index ("sources" ∷ "control_plane_readback" ∷ []) in
      let retained = nested_map input.readback_index ("retained_claim_level_evidence" ∷ []) in
      record {
        claim_readiness = record {
          schema_version = string_field input.claim_readiness "schema_version";
          status = string_field input.claim_readiness "status";
          full_claim_decision = string_field full_claim "decision";
          claim_publish_approved = bool_field partial_readback "claim_publish_approved";
        };
        live_self_change_readback_index = record {
          schema_version = string_field input.readback_index "schema_version";
          status = string_field input.readback_index "status";
          control_plane_readback_status = string_field readback_source "status";
          retained_claim_level_evidence_status = string_field retained "status";
          full_claim_boundary_decision = string_field full_boundary "decision";
        };
      }

  -- The blockers, from the evidence that was observed.
  unfoldable pub gate_blockers : ClaimPublishGateObservedEvidence → List ClaimPublishGateBlocker
  gate_blockers evidence =
      let index = evidence.live_self_change_readback_index in
      let declared =
        remaining_blockers_onto (claim_readiness_blockers full_claim)
          (string_slice_field full_boundary "remaining_blockers") in
      let with_index =
        append_if (not (index.status == "passed"))
          (missing_evidence "readback_index_not_passed"
            "AO2 live self-change readback evidence index must pass")
          declared in
      let with_readback =
        append_if (not (index.control_plane_readback_status == "passed"))
          (missing_evidence "control_plane_readback_not_passed"
            "ao2-control-plane readback must pass before claim publication")
          with_index in
      let with_retained =
        append_if (not (index.retained_claim_level_evidence_status == "present"))
          (missing_evidence "retained_claim_level_evidence_missing"
            "retained claim-level readback evidence must be present")
          with_readback in
      append_if (not evidence.claim_readiness.claim_publish_approved)
        (blocker_for_id "covenant_claim_publish_approval") with_retained

  -- `publishAuthority`
  unfoldable pub has_publish_authority :
      ClaimPublishGateObservedEvidence → List ClaimPublishGateBlocker → Bool
  has_publish_authority evidence blockers =
      let index = evidence.live_self_change_readback_index in
      evidence.claim_readiness.claim_publish_approved
      && evidence.claim_readiness.full_claim_decision == "allowed"
      && index.status == "passed"
      && not (index.full_claim_boundary_decision == "denied")
      && eqb (length blockers) 0

  unfoldable pub evaluate_rsi_claim_publish_gate : ClaimPublishGateResult
  evaluate_rsi_claim_publish_gate =
      let blockers = gate_blockers observed in
      let authority = has_publish_authority observed blockers in
      record {
        schema_version = claim_publish_gate_schema_version;
        claim_level = "full_autonomous_self_mutating_rsi";
        claim_publish_resource = "full-autonomous-self-mutating-rsi";
        status = if authority then "approved" else "denied";
        decision = if authority then decision_allow else decision_deny;
        publish_authority = authority;
        reason =
            if authority
            then "full autonomous self-mutating RSI claim publication approved by Covenant evidence gate"
            else "full autonomous self-mutating RSI claim publication denied; retained readback evidence is not claim-publish authority";
        blocker_count = length blockers;
        blockers = blockers;
        observed_evidence = observed;
        trust_boundary = record {
          local_only = true;
          uses_network = false;
          mutates_repositories = false;
          publishes_claims = false;
          approves_rsi_claims = false;
          stores_credentials = false;
        };
      }

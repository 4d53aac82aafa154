-- ===== src/Tests/Gate.antt =====
-- The claim gate on documents that hold all of its evidence.
use ao_covenant.Base.{true, ◌≡◌, ◌↔◌, refl, string_dec}
use ao_covenant.Json.{
  Fields, empty, field, text, boolean, object, array, nil, string_field, bool_field, nested_map,
  string_slice_field,
}
use ao_covenant.Policy.Types.{decision_allow}
use ao_covenant.Policy.ClaimGate
use ao_covenant.Policy.ClaimGate.{ClaimPublishGateInput, evaluate_rsi_claim_publish_gate}
use ao_covenant.Policy.ClaimGate.Exact.{Complete, gate-Complete}

readiness : Fields
readiness =
    field "claims"
      (object (
        field "full_autonomous_self_mutating_rsi"
          (object (
            field "decision" (text "allowed") (
              field "blockers" (array nil) (
                field "partial_evidence"
                  (object (
                    field "live_self_change_readback_index"
                      (object (field "claim_publish_approved" (boolean true) empty)) empty))
                  empty))))
          empty))
      empty

passed : Fields
passed = field "status" (text "passed") empty

readback : Fields
readback = field "status" (text "passed") (
    field "sources" (object (field "control_plane_readback" (object passed) empty)) (
      field "retained_claim_level_evidence" (object (field "status" (text "present") empty))
        (field "full_claim_boundary" (object (field "decision" (text "allowed") empty)) empty)))

documents : ClaimPublishGateInput
documents = record { claim_readiness = readiness; readback_index = readback }

approved_test : (evaluate_rsi_claim_publish_gate documents).decision ≡ decision_allow
unfolding documents readiness readback passed evaluate_rsi_claim_publish_gate
    ClaimGate.has_publish_authority ClaimGate.observed ClaimGate.gate_blockers ClaimGate.append_if
    ClaimGate.append_blocker_if_missing ClaimGate.remaining_blockers_onto
    ClaimGate.claim_readiness_blockers string_field bool_field nested_map string_slice_field
    string_dec
approved_test = refl

gate-Complete_example :
    ((evaluate_rsi_claim_publish_gate documents).decision ≡ decision_allow) ↔ Complete documents
gate-Complete_example = gate-Complete documents

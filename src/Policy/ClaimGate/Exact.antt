-- ===== src/Policy/ClaimGate/Exact.antt =====
-- When the gate gives authority to publish: exactly on complete evidence.
use text.Mathlib.TextEquality.{eq_iff}
use ao_covenant.Base.{
  String, Bool, true, false, List, [], ◌∷◌, ◌≡◌, ◌≢◌, ◌↔◌, refl, sym, ◌∙◌, arith, All,
}
use ao_covenant.Json.{
  string_slice_field, string_field, bool_field, nested_map, string_slice_field-All,
}
use ao_covenant.Policy.Types.{decision_allow, decision_deny}
use ao_covenant.Policy.ClaimGate.{
  ClaimPublishGateInput, ClaimPublishGateBlocker, has_id, append_blocker_if_missing, append_if,
  ClaimPublishGateObservedEvidence, blocker_for_id, remaining_blockers_onto, gate_blockers,
  observed, claim_readiness_blockers, full_claim, full_boundary, has_publish_authority,
  evaluate_rsi_claim_publish_gate,
}

append-eq-nil :
    (bs : List ClaimPublishGateBlocker) (b : ClaimPublishGateBlocker)
    → append_blocker_if_missing bs b ≡ []
    → (bs ≡ []) × (b.id ≡ "")
unfolding append_blocker_if_missing has_id
append-eq-nil [] b h = ground arith
append-eq-nil (c ∷ bs) b h = ground arith

append_if-eq-nil :
    (test : Bool) (b : ClaimPublishGateBlocker) (bs : List ClaimPublishGateBlocker)
    → b.id ≢ ""
    → append_if test b bs ≡ []
    → (test ≡ false) × (bs ≡ [])
unfolding append_if
append_if-eq-nil true b bs named h = absurd (named (append-eq-nil bs b h).1)
append_if-eq-nil false b bs named h = (refl, h)

id-blocker_for_id : (id : String) → (blocker_for_id id).id ≡ id
unfolding blocker_for_id
id-blocker_for_id id = ground arith

remaining-eq-nil :
    (bs : List ClaimPublishGateBlocker) (ids : List String)
    → All (λ s. s ≢ "") ids
    → remaining_blockers_onto bs ids ≡ []
    → (bs ≡ []) × (ids ≡ [])
unfolding remaining_blockers_onto
remaining-eq-nil bs [] named h = (h, refl)
remaining-eq-nil bs (id ∷ ids) (id_named, named) h =
    let (onto, _) =
      remaining-eq-nil (append_blocker_if_missing bs (blocker_for_id id)) ids named h in
    absurd (id_named (sym (id-blocker_for_id id) ∙ (append-eq-nil bs (blocker_for_id id) onto).1))

-- Everything that the two documents must say.
pub record Complete (input : ClaimPublishGateInput) : Type 0 where
  pub approved :
      bool_field
        (nested_map
          (full_claim input)
          ("partial_evidence" ∷ "live_self_change_readback_index" ∷ []))
        "claim_publish_approved"
      ≡ true
  pub claim_allowed : string_field (full_claim input) "decision" ≡ "allowed"
  pub index_passed : string_field input.readback_index "status" ≡ "passed"
  pub readback_passed :
      string_field
        (nested_map input.readback_index ("sources" ∷ "control_plane_readback" ∷ []))
        "status"
      ≡ "passed"
  pub retained_present :
      string_field (nested_map input.readback_index ("retained_claim_level_evidence" ∷ [])) "status"
      ≡ "present"
  pub boundary_open : string_field (full_boundary input) "decision" ≢ "denied"
  pub no_readiness_blocker : claim_readiness_blockers (full_claim input) ≡ []
  pub no_remaining_blocker : string_slice_field (full_boundary input) "remaining_blockers" ≡ []

ids_named :
    (◌≢◌ {A = String} "readback_index_not_passed" "")
    × (◌≢◌ {A = String} "control_plane_readback_not_passed" "")
    × (◌≢◌ {A = String} "retained_claim_level_evidence_missing" "")
    × (◌≢◌ {A = String} "covenant_claim_publish_approval" "")
ids_named = (
  ground (arith, eq_iff "readback_index_not_passed" ""),
  ground (arith, eq_iff "control_plane_readback_not_passed" ""),
  ground (arith, eq_iff "retained_claim_level_evidence_missing" ""),
  ground (arith, eq_iff "covenant_claim_publish_approval" ""),
)

module _ (input : ClaimPublishGateInput) where
  abbrev declared : List ClaimPublishGateBlocker
  declared =
      remaining_blockers_onto (claim_readiness_blockers (full_claim input))
        (string_slice_field (full_boundary input) "remaining_blockers")

  -- No blockers means that none was declared and that no test asked for one.
  gate_blockers-eq-nil :
      (seen : ClaimPublishGateObservedEvidence)
      → gate_blockers input seen ≡ []
      → (seen.live_self_change_readback_index.control_plane_readback_status ≡ "passed")
        × (seen.live_self_change_readback_index.retained_claim_level_evidence_status ≡ "present")
        × (declared ≡ [])
  unfolding gate_blockers
  gate_blockers-eq-nil seen h =
      let (named_a, named_b, named_c, named_d) = ids_named in
      let (_, ha) =
        append_if-eq-nil _ (blocker_for_id "covenant_claim_publish_approval") _
          (λ e. named_d (sym (id-blocker_for_id _) ∙ e)) h in
      let (tb, hb) = append_if-eq-nil _ _ _ named_c ha in
      let (tc, hc) = append_if-eq-nil _ _ _ named_b hb in
      let (_, hd) = append_if-eq-nil _ _ _ named_a hc in (ground arith, ground arith, hd)

  Complete-of_authority :
      (evaluate_rsi_claim_publish_gate input).publish_authority ≡ true → Complete input
  unfolding evaluate_rsi_claim_publish_gate has_publish_authority observed
  Complete-of_authority h =
      let none : gate_blockers input (observed input) ≡ [] = ground arith in
      let (readback, retained, undeclared) = gate_blockers-eq-nil (observed input) none in
      let (no_readiness, no_remaining) =
        remaining-eq-nil (claim_readiness_blockers (full_claim input))
          (string_slice_field (full_boundary input) "remaining_blockers")
          (string_slice_field-All (full_boundary input) "remaining_blockers") undeclared in
      record {
        approved = ground arith;
        claim_allowed = ground arith;
        index_passed = ground arith;
        readback_passed = readback;
        retained_present = retained;
        boundary_open = ground arith;
        no_readiness_blocker = no_readiness;
        no_remaining_blocker = no_remaining;
      }

  no_blockers_of_Complete : Complete input → gate_blockers input (observed input) ≡ []
  unfolding gate_blockers append_if observed remaining_blockers_onto
  no_blockers_of_Complete c = ground arith

  authority_of_Complete :
      Complete input → (evaluate_rsi_claim_publish_gate input).publish_authority ≡ true
  unfolding evaluate_rsi_claim_publish_gate has_publish_authority observed
  authority_of_Complete c = ground (arith, no_blockers_of_Complete c)

  -- The gate decides allow exactly when it gives publish authority.
  decision_of_authority :
      ((evaluate_rsi_claim_publish_gate input).decision ≡ decision_allow)
      ↔ ((evaluate_rsi_claim_publish_gate input).publish_authority ≡ true)
  unfolding evaluate_rsi_claim_publish_gate
  decision_of_authority =
      (λ h. ground (arith, eq_iff decision_deny decision_allow), λ h. ground arith)

  -- The gate decides allow exactly when the documents hold all of its evidence: the approval, the
  -- allowed full claim, the passed index and readback, the retained evidence, a boundary that is
  -- not denied, and no blocker in either document.
  pub gate-Complete :
      ((evaluate_rsi_claim_publish_gate input).decision ≡ decision_allow) ↔ Complete input
  gate-Complete = (
    λ h. Complete-of_authority (decision_of_authority.0 h),
    λ c. decision_of_authority.1 (authority_of_Complete c),
  )

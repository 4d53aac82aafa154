-- ===== src/Policy/ClaimGate/Blockers.antt =====
-- The blockers of the gate are named, and named apart.
use ao_covenant.Base.{
  String, Bool, true, false, ◌||◌, List, [], ◌∷◌, ◌++◌, ◌==◌, ◌≡◌, ◌≢◌, refl, arith, Bool-cases,
  inl, inr,
}
use ao_covenant.Json.{Fields, get, as_array, Items, nil, cons, object}
use ao_covenant.Policy.ClaimGate.{
  ClaimPublishGateInput, ClaimPublishGateBlocker, has_id, append_blocker_if_missing, append_if,
  readiness_blockers_onto, claim_readiness_blockers, blocker_of_map, blocker_for_id,
  remaining_blockers_onto, gate_blockers, evaluate_rsi_claim_publish_gate,
}

-- No blocker has an empty id, and no two have the same.
abbrev Distinct : List ClaimPublishGateBlocker → Type 0
Distinct [] = Unit
Distinct (b ∷ blockers) = (b.id ≢ "") × (has_id blockers b.id ≡ false) × Distinct blockers

has_id-append :
    (bs cs : List ClaimPublishGateBlocker) (id : String)
    → has_id (bs ++ cs) id ≡ (has_id bs id || has_id cs id)
unfolding has_id
has_id-append [] cs id = refl
has_id-append (b ∷ bs) cs id = ground (arith, has_id-append bs cs id)

Distinct-append :
    (bs : List ClaimPublishGateBlocker) (b : ClaimPublishGateBlocker)
    → Distinct bs
    → b.id ≢ ""
    → has_id bs b.id ≡ false
    → Distinct (bs ++ b ∷ [])
unfolding has_id
Distinct-append [] b d named new = (named, refl, tt)
Distinct-append (c ∷ bs) b (c_named, c_new, d) named new = (
  c_named,
  ground (arith, has_id-append bs (b ∷ []) c.id),
  Distinct-append bs b d named (ground arith),
)

append-Distinct :
    (bs : List ClaimPublishGateBlocker) (b : ClaimPublishGateBlocker)
    → Distinct bs
    → Distinct (append_blocker_if_missing bs b)
unfolding append_blocker_if_missing
append-Distinct bs b d = elim (Bool-cases (b.id == "")) [
  | inl e ↦ rw e d
  | inr e ↦ elim (Bool-cases (has_id bs b.id)) [
    | inl old ↦ rw (e, old) d
    | inr new ↦ rw (e, new) (Distinct-append bs b d (ground arith) new)
  ]
]

append_if-Distinct :
    (test : Bool) (b : ClaimPublishGateBlocker) (bs : List ClaimPublishGateBlocker)
    → Distinct bs
    → Distinct (append_if test b bs)
unfolding append_if
append_if-Distinct true b bs d = append-Distinct bs b d
append_if-Distinct false b bs d = d

readiness-Distinct :
    (bs : List ClaimPublishGateBlocker) (items : Items)
    → Distinct bs
    → Distinct (readiness_blockers_onto bs items)
unfolding readiness_blockers_onto
readiness-Distinct bs nil d = d
readiness-Distinct bs (cons (object entry) items) d =
    readiness-Distinct (append_blocker_if_missing bs (blocker_of_map entry)) items
      (append-Distinct bs (blocker_of_map entry) d)
readiness-Distinct bs (cons _ items) d = readiness-Distinct bs items d

claim_readiness-Distinct : (full_claim : Fields) → Distinct (claim_readiness_blockers full_claim)
unfolding claim_readiness_blockers
claim_readiness-Distinct full_claim =
    readiness-Distinct [] (as_array (get full_claim "blockers")) tt

remaining-Distinct :
    (bs : List ClaimPublishGateBlocker) (ids : List String)
    → Distinct bs
    → Distinct (remaining_blockers_onto bs ids)
unfolding remaining_blockers_onto
remaining-Distinct bs [] d = d
remaining-Distinct bs (id ∷ ids) d =
    remaining-Distinct (append_blocker_if_missing bs (blocker_for_id id)) ids
      (append-Distinct bs (blocker_for_id id) d)

-- Whatever documents it is given, the gate reports blockers that all have an id, no id twice.
gate_blockers-Distinct :
    (input : ClaimPublishGateInput) → Distinct (evaluate_rsi_claim_publish_gate input).blockers
unfolding evaluate_rsi_claim_publish_gate gate_blockers
gate_blockers-Distinct input = append_if-Distinct _ _ _ (
    append_if-Distinct _ _ _ (
      append_if-Distinct _ _ _
        (append_if-Distinct _ _ _ (remaining-Distinct _ _ (claim_readiness-Distinct _)))))

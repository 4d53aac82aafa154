-- ===== src/Verify/Chain/Tamper.antt =====
-- Tamper evidence: the number of events and the last hash fix the whole ledger.
use ao_covenant.Base.{String, List, [], ◌∷◌, ◌≡◌, ok, arith, refl, sym, ap, ap₂, ◌∙◌, All, length}
use ao_covenant.Run.Types.{Event, EventHashPayload, genesis_event_hash}
use ao_covenant.Run.Recorder.{payload_of}
use ao_covenant.Verify.Chain.{verify_chain}
use ao_covenant.Verify.Chain.Sound.{Chained, verify_chain-Chained}

-- No two different contents among these events have one hash.
abbrev pub CollisionFree : (EventHashPayload → String) → List Event → List Event → Type 0
CollisionFree hash xs ys =
    All (λ x. All (λ y. hash (payload_of x) ≡ hash (payload_of y) → payload_of x ≡ payload_of y) ys)
      xs

abbrev pub last_hash : String → List Event → String
last_hash previous [] = previous
last_hash previous (event ∷ events) = last_hash event.event_hash events

abbrev event_of : String → EventHashPayload → Event
event_of hash p = record {
  schema_version = p.schema_version;
  event_id = p.event_id;
  sequence = p.sequence;
  run_id = p.run_id;
  previous_event_hash = p.previous_event_hash;
  event_hash = hash;
  type = p.type;
  task_id = p.task_id;
  status = p.status;
  message = p.message;
  artifact_ids = p.artifact_ids;
  decision_id = p.decision_id;
  decision = p.decision;
  effect_type = p.effect_type;
  resource = p.resource;
  approval_ticket_id = p.approval_ticket_id;
}

module _ (hash : EventHashPayload → String) where
  tail-CollisionFree :
      (xs : List Event) (y : Event) (ys : List Event)
      → CollisionFree hash xs (y ∷ ys)
      → CollisionFree hash xs ys
  tail-CollisionFree [] y ys free = tt
  tail-CollisionFree (x ∷ xs) y ys ((_, first), rest) = (first, tail-CollisionFree xs y ys rest)

  chains-eq :
      (run_x run_y p q : String) (xs ys : List Event)
      → CollisionFree hash xs ys
      → Chained hash run_x p xs
      → Chained hash run_y q ys
      → length xs ≡ length ys
      → last_hash p xs ≡ last_hash q ys
      → (xs ≡ ys) × (p ≡ q)
  chains-eq run_x run_y p q [] [] free cx cy len last = (refl, last)
  chains-eq run_x run_y p q [] (y ∷ ys) free cx cy len last = absurd (omega arith)
  chains-eq run_x run_y p q (x ∷ xs) [] free cx cy len last = absurd (omega arith)
  chains-eq run_x run_y p q (x ∷ xs) (y ∷ ys) ((same, _), free) (_, px, hx, cx) (_, py, hy, cy) len
        last =
      let (rest, hashes) =
        chains-eq run_x run_y x.event_hash y.event_hash xs ys (tail-CollisionFree xs y ys free) cx
          cy (omega arith) last in
      let payloads : payload_of x ≡ payload_of y = same (sym hx ∙ hashes ∙ hy) in
      (
        ap₂ (λ (e : Event) (es : List Event). e ∷ es) (ap₂ event_of hashes payloads) rest,
        sym px ∙ ap (λ (e : EventHashPayload). e.previous_event_hash) payloads ∙ py,
      )

  -- Two ledgers that the verifier accepts, with as many events and the same last event hash, are the
  -- same ledger, if no two different contents among their events have one hash.
  pub last_hash-pins :
      (x : Event) (xs : List Event) (y : Event) (ys : List Event)
      → CollisionFree hash (x ∷ xs) (y ∷ ys)
      → verify_chain hash x xs ≡ ok tt
      → verify_chain hash y ys ≡ ok tt
      → length (x ∷ xs) ≡ length (y ∷ ys)
      → last_hash genesis_event_hash (x ∷ xs) ≡ last_hash genesis_event_hash (y ∷ ys)
      → (x ∷ xs) ≡ (y ∷ ys)
  last_hash-pins x xs y ys free vx vy len last =
      (chains-eq x.run_id y.run_id genesis_event_hash genesis_event_hash (x ∷ xs) (y ∷ ys) free
        ((verify_chain-Chained hash x xs).0 vx) ((verify_chain-Chained hash y ys).0 vy) len last).0

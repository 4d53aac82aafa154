-- ===== src/Tests/Ledgers.antt =====
-- The ledger of a short run, as the recorder writes it and as the verifier reads it.
use text.Mathlib.TextEquality.{eq_iff}
use ao_covenant.Base.{String, true, List, [], ◌∷◌, ◌≡◌, ◌↔◌, arith, refl, ok, string_dec}
use ao_covenant.Text.{decimal6}
use ao_covenant.Policy.Types.{Decision, decision_schema_version, decision_allow}
use ao_covenant.Run.Types.{Event, EventHashPayload, genesis_event_hash}
use ao_covenant.Run.Recorder.{Recorder, new_recorder, emit, emit_policy_decision}
use ao_covenant.Run.Recorder.Steps.{
  Reached, start, emitted, decided, Increasing, Reached-Increasing,
}
use ao_covenant.Verify.Chain.{verify_chain}
use ao_covenant.Verify.Chain.Sound.{Chained, verify_chain-Chained}
use ao_covenant.Verify.Chain.Tamper.{CollisionFree, last_hash-pins}
use ao_covenant.Verify.Chain.Recorded.{Reached-verify_chain}

-- In place of SHA-256.
abbrev pub hash : EventHashPayload → String
hash p = p.event_id

abbrev pub decision : Decision
decision = record {
  schema_version = decision_schema_version;
  decision_id = "policy-scripted_change-1";
  task_id = "scripted_change";
  effect_type = "process.spawn";
  resource = "make-test";
  decision = decision_allow;
  reason = "approved by ticket";
  approval_ticket_id = "ticket_process";
}

abbrev started : Recorder
started =
    (emit hash (λ e. true) (λ e. true) (new_recorder "run-1") "run_started" "" "success"
      "run accepted" []).0

abbrev recorder : Recorder
recorder =
    (emit_policy_decision hash (λ e. true) (λ e. true) started "scripted_change" "success"
      decision).0

reached : Reached hash (λ e. true) (λ e. true) "run-1" recorder
reached =
    decided (emitted start "run_started" "" "success" "run accepted" []) "scripted_change" "success"
      decision

abbrev pub first : Event
first = record {
  schema_version = "covenant.event.v1";
  event_id = "event-000001";
  sequence = 1;
  run_id = "run-1";
  previous_event_hash = genesis_event_hash;
  event_hash = "event-000001";
  type = "run_started";
  task_id = "";
  status = "success";
  message = "run accepted";
  artifact_ids = [];
  decision_id = "";
  decision = "";
  effect_type = "";
  resource = "";
  approval_ticket_id = "";
}

abbrev pub second : Event
second = record first {
  event_id = "event-000002";
  sequence = 2;
  previous_event_hash = "event-000001";
  event_hash = "event-000002";
  type = "policy_decided";
  task_id = "scripted_change";
  message = "approved by ticket";
  decision_id = "policy-scripted_change-1";
  decision = "allow";
  effect_type = "process.spawn";
  resource = "make-test";
  approval_ticket_id = "ticket_process";
}

written : recorder.ledger ≡ (first ∷ second ∷ [])
unfolding emit emit_policy_decision decimal6
written = refl

verified : verify_chain hash first (second ∷ []) ≡ ok tt
unfolding verify_chain string_dec
verified = refl

verify_chain-Chained_example :
    (verify_chain hash first (second ∷ []) ≡ ok tt)
    ↔ Chained hash "run-1" genesis_event_hash (first ∷ second ∷ [])
verify_chain-Chained_example = verify_chain-Chained hash first (second ∷ [])

no_collision : CollisionFree hash (first ∷ second ∷ []) (first ∷ second ∷ [])
no_collision = (
  (λ e. refl, (λ e. ground (arith, eq_iff "event-000001" "event-000002"), tt)),
  ((λ e. ground (arith, eq_iff "event-000002" "event-000001"), (λ e. refl, tt)), tt),
)

last_hash-pins_example : ◌≡◌ {A = List Event} (first ∷ second ∷ []) (first ∷ second ∷ [])
last_hash-pins_example =
    last_hash-pins hash first (second ∷ []) first (second ∷ []) no_collision verified verified refl
      refl

Reached-Increasing_example : Increasing 0 recorder.sequence recorder.ledger
Reached-Increasing_example = Reached-Increasing hash (λ e. true) (λ e. true) recorder reached

Reached-verify_chain_example : verify_chain hash first (second ∷ []) ≡ ok tt
Reached-verify_chain_example =
    Reached-verify_chain hash (λ e. true) (λ e. true) "run-1" recorder first (second ∷ []) reached
      written

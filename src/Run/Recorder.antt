-- ===== src/Run/Recorder.antt =====
-- `eventRecorder` of internal/run/executor.go: the writer of a run's hash-chained ledger.
--
-- `hash` is SHA-256 of the payload's JSON, in hexadecimal, and `event_schema` the JSON-schema check
-- of an event. Marshalling an event never fails, since it holds only texts and numbers. The ledger
-- is the list of the events written, in their order; a write that the system refuses is an error of
-- the argument `write`.
pub mod Steps
use ao_covenant.Base.{
  ℕ, ◌+◌, String, ◌<>◌, Bool, true, false, not, List, [], ◌∷◌, ◌++◌, if◌then◌else◌, Outcome, ok,
  err,
}
use ao_covenant.Text.{decimal6}
use ao_covenant.Policy.Types.{Decision}
use ao_covenant.Run.Types.{
  Event, EventHashPayload, event_schema_version, genesis_event_hash, FailureRecord,
  failure_schema_version,
}

pub data RecorderError : Type 0 where
  event_schema_invalid write_failed : (event_id : String) → RecorderError

pub record Recorder : Type 0 where
  pub ledger : List Event
  pub run_id : String
  pub sequence : ℕ
  pub previous_hash : String

abbrev pub new_recorder : String → Recorder
new_recorder run_id = record {
  ledger = [];
  run_id = run_id;
  sequence = 0;
  previous_hash = genesis_event_hash;
}

abbrev pub payload_of : Event → EventHashPayload
payload_of event = record {
  schema_version = event.schema_version;
  event_id = event.event_id;
  sequence = event.sequence;
  run_id = event.run_id;
  previous_event_hash = event.previous_event_hash;
  type = event.type;
  task_id = event.task_id;
  status = event.status;
  message = event.message;
  artifact_ids = event.artifact_ids;
  decision_id = event.decision_id;
  decision = event.decision;
  effect_type = event.effect_type;
  resource = event.resource;
  approval_ticket_id = event.approval_ticket_id;
}

-- `r.sequence++`
abbrev pub next_sequence : Recorder → Recorder
next_sequence r = record r { sequence = r.sequence + 1 }

-- The event that `emit` builds, for a recorder whose sequence has moved on.
abbrev pub base_event : Recorder → String → String → String → String → Event
base_event r type task_id status message = record {
  schema_version = event_schema_version;
  event_id = "event-" <> decimal6 r.sequence;
  sequence = r.sequence;
  run_id = r.run_id;
  previous_event_hash = r.previous_hash;
  event_hash = "";
  type = type;
  task_id = task_id;
  status = status;
  message = message;
  artifact_ids = [];
  decision_id = "";
  decision = "";
  effect_type = "";
  resource = "";
  approval_ticket_id = "";
}

abbrev pub emitted_event : Recorder → (type task_id status message : String) → List String → Event
emitted_event r type task_id status message artifact_ids =
    record (base_event r type task_id status message) { artifact_ids = artifact_ids }

-- The event that `emitPolicyDecision` builds.
abbrev pub decided_event : Recorder → (task_id status : String) → Decision → Event
decided_event r task_id status decision =
    record (base_event r "policy_decided" task_id status decision.reason) {
      decision_id = decision.decision_id;
      decision = decision.decision;
      effect_type = decision.effect_type;
      resource = decision.resource;
      approval_ticket_id = decision.approval_ticket_id;
    }

module _ (hash : EventHashPayload → String) (event_schema : Event → Bool)
    (write : Event → Bool) where
  abbrev pub event_content_hash : Event → String
  event_content_hash event = hash (payload_of event)

  abbrev with_hash : Event → Event
  with_hash event = record event { event_hash = event_content_hash event }

  -- The part that `emit` and `emitPolicyDecision` share, from the hash on.
  unfoldable pub append_event : Recorder → Event → Recorder × Outcome RecorderError Event
  append_event r unhashed =
      let event = with_hash unhashed in
      if not (event_schema event)
      then (r, err (event_schema_invalid event.event_id))
      else if not (write event)
      then (r, err (write_failed event.event_id))
      else (
        record r { ledger = r.ledger ++ event ∷ []; previous_hash = event.event_hash },
        ok event,
      )

  unfoldable pub emit :
      Recorder
      → (event_type task_id status message : String) → List String
      → Recorder × Outcome RecorderError Event
  unfolding append_event
  emit r type task_id status message artifact_ids =
      let next = next_sequence r in
      append_event next (emitted_event next type task_id status message artifact_ids)

  unfoldable pub emit_policy_decision :
      Recorder → (task_id status : String) → Decision → Recorder × Outcome RecorderError Event
  unfolding append_event
  emit_policy_decision r task_id status decision =
      let next = next_sequence r in append_event next (decided_event next task_id status decision)

-- `newFailureRecord`
unfoldable pub new_failure_record : ℕ → Event → String → String → FailureRecord
new_failure_record sequence event phase reason = record {
  schema_version = failure_schema_version;
  failure_id = "failure-" <> decimal6 sequence;
  event_id = event.event_id;
  task_id = event.task_id;
  phase = phase;
  reason = reason;
}

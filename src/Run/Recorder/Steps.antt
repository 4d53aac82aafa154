-- ===== src/Run/Recorder/Steps.antt =====
-- The states that a recorder goes through, and the order of the events that it writes.
use ao_covenant.Base.{
  ℕ, ◌+◌, ◌<◌, ◌≤◌, String, Bool, List, [], ◌∷◌, ◌++◌, ◌≡◌, ◌⊎◌, inl, inr, arith, refl,
}
use ao_covenant.Policy.Types.{Decision}
use ao_covenant.Run.Types.{Event, EventHashPayload}
use ao_covenant.Run.Recorder.{
  Recorder, new_recorder, payload_of, append_event, emit, emit_policy_decision, next_sequence,
  emitted_event, decided_event,
}

-- Each sequence number is above the one before, and the last is at most `top`.
abbrev pub Increasing : ℕ → ℕ → List Event → Type 0
Increasing low top [] = low ≤ top
Increasing low top (event ∷ events) = (low < event.sequence) × Increasing event.sequence top events

Increasing-append :
    (low top : ℕ) (events : List Event) (event : Event)
    → Increasing low top events
    → event.sequence ≡ top + 1
    → Increasing low (top + 1) (events ++ event ∷ [])
Increasing-append low top [] event h e = (omega arith, omega arith)
Increasing-append low top (x ∷ events) event (h, rest) e =
    (h, Increasing-append x.sequence top events event rest e)

Increasing-raise :
    (low top : ℕ) (events : List Event)
    → Increasing low top events
    → Increasing low (top + 1) events
Increasing-raise low top [] h = omega arith
Increasing-raise low top (x ∷ events) (h, rest) = (h, Increasing-raise x.sequence top events rest)

module _ (hash : EventHashPayload → String) (event_schema : Event → Bool)
    (write : Event → Bool) where
  -- Whatever is emitted, in whatever order, with the calls that fail among it.
  pub data Reached (run_id : String) : Recorder → Type 0 where
    start : Reached run_id (new_recorder run_id)
    emitted :
        {r : Recorder}
        → Reached run_id r
        → (event_type task_id status message : String) (artifact_ids : List String)
        → Reached run_id
            (emit hash event_schema write r event_type task_id status message artifact_ids).0
    decided :
        {r : Recorder}
        → Reached run_id r
        → (task_id status : String) (decision : Decision)
        → Reached run_id (emit_policy_decision hash event_schema write r task_id status decision).0

  -- A call leaves the recorder with its sequence moved on, or adds the hashed event too.
  pub append_event-cases :
      (r : Recorder) (event : Event)
      → let hashed = record event { event_hash = hash (payload_of event) } in
        ((append_event hash event_schema write r event).0 ≡ r)
        ⊎ ((append_event hash event_schema write r event).0 ≡ record r {
          ledger = r.ledger ++ hashed ∷ [];
          previous_hash = hash (payload_of event);
        })
  unfolding append_event
  append_event-cases r event = ground arith

  append_event-Increasing :
      (r : Recorder) (event : Event)
      → Increasing 0 r.sequence r.ledger
      → event.sequence ≡ r.sequence + 1
      → let next = (append_event hash event_schema write (next_sequence r) event).0 in
        Increasing 0 next.sequence next.ledger
  append_event-Increasing r event h e = elim (append_event-cases (next_sequence r) event) [
    | inl same ↦ rw same (Increasing-raise 0 r.sequence r.ledger h)
    | inr added ↦ rw added (
        Increasing-append 0 r.sequence r.ledger
          (record event { event_hash = hash (payload_of event) }) h e)
  ]

  -- The sequence numbers of a recorder's ledger strictly increase from above 0, up to its counter,
  -- whatever calls have succeeded or failed.
  pub Reached-Increasing :
      {run_id : String} (r : Recorder) → Reached run_id r → Increasing 0 r.sequence r.ledger
  unfolding emit emit_policy_decision
  Reached-Increasing _ start = omega arith
  Reached-Increasing _ (emitted {r = r} before type task_id status message ids) =
      append_event-Increasing r (emitted_event (next_sequence r) type task_id status message ids)
        (Reached-Increasing r before) refl
  Reached-Increasing _ (decided {r = r} before task_id status decision) =
      append_event-Increasing r (decided_event (next_sequence r) task_id status decision)
        (Reached-Increasing r before) refl

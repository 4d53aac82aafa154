-- ===== src/Verify/Chain/Recorded.antt =====
-- The verifier accepts what the recorder writes.
use ao_covenant.Base.{String, Bool, List, [], ◌∷◌, ◌++◌, ◌≡◌, inl, inr, arith, refl, sym, subst, ok}
use ao_covenant.Run.Types.{Event, EventHashPayload, genesis_event_hash}
use ao_covenant.Run.Recorder.{
  Recorder, payload_of, append_event, emit, emit_policy_decision, next_sequence, emitted_event,
  decided_event,
}
use ao_covenant.Run.Recorder.Steps.{Reached, start, emitted, decided, append_event-cases}
use ao_covenant.Verify.Chain.{verify_chain}
use ao_covenant.Verify.Chain.Sound.{Chained, verify_chain-Chained}
use ao_covenant.Verify.Chain.Tamper.{last_hash}

module _ (hash : EventHashPayload → String) where
  Chained-append :
      (run_id previous : String) (events : List Event) (event : Event)
      → Chained hash run_id previous events
      → event.run_id ≡ run_id
      → event.previous_event_hash ≡ last_hash previous events
      → event.event_hash ≡ hash (payload_of event)
      → Chained hash run_id previous (events ++ event ∷ [])
  Chained-append run_id previous [] event c r p h = (r, p, h, tt)
  Chained-append run_id previous (x ∷ events) event (xr, xp, xh, c) r p h =
      (xr, xp, xh, Chained-append run_id x.event_hash events event c r p h)

last_hash-append :
    (previous : String) (events : List Event) (event : Event)
    → last_hash previous (events ++ event ∷ []) ≡ event.event_hash
last_hash-append previous [] event = refl
last_hash-append previous (x ∷ events) event = last_hash-append x.event_hash events event

module _ (hash : EventHashPayload → String) (event_schema : Event → Bool)
    (write : Event → Bool) where
  record IsRecording (run_id : String) (r : Recorder) : Type 0 where
    same_run : r.run_id ≡ run_id
    chained : Chained hash run_id genesis_event_hash r.ledger
    ends : last_hash genesis_event_hash r.ledger ≡ r.previous_hash

  append_event-IsRecording :
      (run_id : String) (r : Recorder) (event : Event)
      → IsRecording run_id r
      → event.run_id ≡ r.run_id
      → event.previous_event_hash ≡ r.previous_hash
      → IsRecording run_id (append_event hash event_schema write (next_sequence r) event).0
  append_event-IsRecording run_id r event i same previous =
      elim (append_event-cases hash event_schema write (next_sequence r) event) [
        | inl e ↦ rw e (record { same_run = i.same_run; chained = i.chained; ends = i.ends })
        | inr e ↦ rw e (record {
          same_run = i.same_run;
          chained =
              Chained-append hash run_id genesis_event_hash r.ledger
                (record event { event_hash = hash (payload_of event) }) i.chained
                (ground (arith, i.same_run)) (ground (arith, i.ends)) refl;
          ends =
              last_hash-append genesis_event_hash r.ledger
                (record event { event_hash = hash (payload_of event) });
        })
      ]

  Reached-IsRecording :
      (run_id : String) (r : Recorder)
      → Reached hash event_schema write run_id r
      → IsRecording run_id r
  unfolding emit emit_policy_decision
  Reached-IsRecording run_id _ start = record { same_run = refl; chained = tt; ends = refl }
  Reached-IsRecording run_id _ (emitted {r = r} before type task_id status message ids) =
      append_event-IsRecording run_id r
        (emitted_event (next_sequence r) type task_id status message ids)
        (Reached-IsRecording run_id r before) refl refl
  Reached-IsRecording run_id _ (decided {r = r} before task_id status decision) =
      append_event-IsRecording run_id r (decided_event (next_sequence r) task_id status decision)
        (Reached-IsRecording run_id r before) refl refl

  -- The verifier accepts the ledger of a recorder, once it has an event, whatever was emitted in
  -- whatever order and whichever of the calls failed.
  pub Reached-verify_chain :
      (run_id : String) (r : Recorder) (first : Event) (events : List Event)
      → Reached hash event_schema write run_id r
      → r.ledger ≡ (first ∷ events)
      → verify_chain hash first events ≡ ok tt
  Reached-verify_chain run_id r first events reached shape =
      let (same, previous, hashed, rest) =
        subst (λ (l : List Event). Chained hash run_id genesis_event_hash l) shape
          (Reached-IsRecording run_id r reached).chained in
      (verify_chain-Chained hash first events).1 (
        refl,
        previous,
        hashed,
        subst (λ (id : String). Chained hash id first.event_hash events) (sym same) rest,
      )

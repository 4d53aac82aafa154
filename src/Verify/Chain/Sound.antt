-- ===== src/Verify/Chain/Sound.antt =====
-- What a verified chain is.
use ao_covenant.Base.{String, List, [], ◌∷◌, ◌≡◌, ◌↔◌, ok, arith, refl}
use ao_covenant.Run.Types.{Event, EventHashPayload, genesis_event_hash}
use ao_covenant.Run.Recorder.{payload_of}
use ao_covenant.Verify.Chain.{verify_events, verify_chain}

-- Each event is of the run, names the hash of the event before it, and has the hash of its content.
abbrev pub Chained : (EventHashPayload → String) → String → String → List Event → Type 0
Chained hash run_id previous [] = Unit
Chained hash run_id previous (event ∷ events) =
    (event.run_id ≡ run_id)
    × (event.previous_event_hash ≡ previous)
    × (event.event_hash ≡ hash (payload_of event))
    × Chained hash run_id event.event_hash events

module _ (hash : EventHashPayload → String) where
  pub verify_events-Chained :
      (run_id previous : String) (events : List Event)
      → (verify_events hash run_id previous events ≡ ok tt) ↔ Chained hash run_id previous events
  unfolding verify_events
  verify_events-Chained run_id previous [] = (λ h. tt, λ h. refl)
  verify_events-Chained run_id previous (event ∷ events) =
      let ih = verify_events-Chained run_id event.event_hash events in
      (λ h. ground (arith, ih), λ h. ground (arith, ih))

  -- The verifier accepts exactly the ledgers in which every event is of the first event's run, names
  -- the hash of the event before it, the genesis hash for the first, and has its own content's hash.
  pub verify_chain-Chained :
      (first : Event) (events : List Event)
      → (verify_chain hash first events ≡ ok tt)
        ↔ Chained hash first.run_id genesis_event_hash (first ∷ events)
  unfolding verify_chain
  verify_chain-Chained first events =
      verify_events-Chained first.run_id genesis_event_hash (first ∷ events)

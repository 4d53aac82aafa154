-- ===== src/Verify/Chain.antt =====
-- `verifyChain` of internal/verify/verifier.go.
pub mod Sound
pub mod Tamper
pub mod Recorded
pub mod Executed
use ao_covenant.Base.{
  String, Bool, true, false, not, List, [], ◌∷◌, ◌==◌, Outcome, ok, err, ◌>>=◌, ◌>>◌, fail_if,
}
use ao_covenant.Run.Types.{Event, EventHashPayload, genesis_event_hash}
use ao_covenant.Run.Recorder.{payload_of}
use ao_covenant.Verify.Types.{Check, run_id_changed, previous_hash_mismatch, event_hash_mismatch}

module _ (hash : EventHashPayload → String) where
  -- The loop over the events, behind the hash of the event before.
  unfoldable pub verify_events : String → String → List Event → Check
  verify_events run_id previous [] = ok tt
  verify_events run_id previous (event ∷ events) = do
    fail_if (not (event.run_id == run_id)) (run_id_changed event.event_id)
    fail_if (not (event.previous_event_hash == previous)) (previous_hash_mismatch event.event_id)
    fail_if (not (event.event_hash == hash (payload_of event))) (event_hash_mismatch event.event_id)
    verify_events run_id event.event_hash events

  -- The ledger is its first event and the others: `Verify` has refused an empty one before.
  unfoldable pub verify_chain : Event → List Event → Check
  unfolding verify_events
  verify_chain first events = verify_events first.run_id genesis_event_hash (first ∷ events)

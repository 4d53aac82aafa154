-- ===== src/Verify/Chain/Executed.antt =====
-- The verifier accepts the ledger that the task loop leaves.
use ao_covenant.Base.{String, Bool, List, ◌∷◌, ◌≡◌, ok}
use ao_covenant.Base.Dict.{Dict}
use ao_covenant.Text.{Host}
use ao_covenant.Contract.Types.{Contract}
use ao_covenant.Run.Types.{Event, EventHashPayload}
use ao_covenant.Run.Executor.{Services}
use ao_covenant.Run.Executor.Loop.{execute_tasks}
use ao_covenant.Run.Executor.Loop.Events.{run_of}
use ao_covenant.Run.Executor.Loop.Kept.{execute_tasks-Kept}
use ao_covenant.Verify.Chain.{verify_chain}
use ao_covenant.Verify.Chain.Recorded.{Reached-verify_chain}

module _ {World : Type 0} (host : Host) (hash : EventHashPayload → String)
    (event_schema : Event → Bool) (write : Event → Bool) (services : Services World) (c : Contract)
    (revoked : Dict Bool) where
  -- However the task loop ends, in success, denial, failure or error, the verifier accepts the ledger
  -- that it has written, once it has an event.
  pub execute_tasks-verify_chain :
      (run_id : String) (world : World) (first : Event) (events : List Event)
      → (run_of (
          execute_tasks host hash event_schema write services c revoked run_id
            world)).recorder.ledger
        ≡ (first ∷ events)
      → verify_chain hash first events ≡ ok tt
  execute_tasks-verify_chain run_id world first events shape =
      let kept =
        execute_tasks-Kept host hash event_schema write services c revoked run_id (λ w. Unit)
          (λ w t a i now allowed h. tt) world tt in
      Reached-verify_chain hash event_schema write run_id _ first events kept.1 shape

-- ===== src/Run/Executor/Loop/Events.antt =====
-- What the task loop keeps where it writes events: the host as it is, and a recorder that only moves
-- on by its own calls.
use ao_covenant.Base.{String, Bool, List, [], ◌∷◌, ◌++◌, ◌==◌, if◌then◌else◌, Outcome, ok, err, map}
use ao_covenant.Base.Dict.{Dict}
use ao_covenant.Text.{Host}
use ao_covenant.Policy.Types.{Decision, decision_deny}
use ao_covenant.Contract.Types.{Contract, Task}
use ao_covenant.Run.Types.{Event, EventHashPayload, ArtifactRef}
use ao_covenant.Run.Recorder.{RecorderError, emit, emit_policy_decision}
use ao_covenant.Run.Recorder.Steps.{Reached, emitted, decided}
use ao_covenant.Run.Executor.{Services, Run, Ending, Step, going, stopped, and_then}
use ao_covenant.Run.Executor.Loop.States.{Tracked, set_status-Tracked}
use ao_covenant.Run.Executor.Loop.{
  emitting, record_decisions, fail_task, record_artifacts, finish_task, with_artifact, finished,
}

-- The run that a step has come to, whether it goes on or has stopped.
abbrev pub run_of : {World : Type 0} → Step World → Run World
run_of (going run) = run
run_of (stopped run ending) = run

module _ {World : Type 0} (P : Run World → Type 0) where
  abbrev pub Holds : Step World → Type 0
  Holds s = P (run_of s)

  pub and_then-Holds :
      (s : Step World) (rest : Run World → Step World)
      → Holds s
      → ((r : Run World) → P r → Holds (rest r))
      → Holds (and_then s rest)
  and_then-Holds (going r) rest h k = k r h
  and_then-Holds (stopped r e) rest h k = h

module _ {World : Type 0} (host : Host) (hash : EventHashPayload → String)
    (event_schema : Event → Bool) (write : Event → Bool) (services : Services World) (c : Contract)
    (revoked : Dict Bool) (run_id : String) (Inv : World → Type 0) where
  abbrev pub Kept : Run World → Type 0
  Kept run =
      Inv run.world
      × Reached hash event_schema write run_id run.recorder
      × Tracked c.tasks run.states

  -- After an event, or the recorder's error, whichever it is.
  pub outcome-Kept :
      (out : Outcome RecorderError Event) (failed : RecorderError → Step World)
      (rest : Event → Step World)
      → ((e : RecorderError) → Kept (run_of (failed e)))
      → ((event : Event) → Kept (run_of (rest event)))
      → Kept (run_of (elim out [ err e ↦ failed e | ok event ↦ rest event ]))
  outcome-Kept (ok event) failed rest h k = k event
  outcome-Kept (err e) failed rest h k = h e

  pub emitting-Kept :
      (run : Run World) (type task_id status message : String) (ids : List String)
      (rest : Run World → Event → Step World)
      → Kept run
      → ((r : Run World) (event : Event) → Kept r → Kept (run_of (rest r event)))
      → Kept (
          run_of (
            emitting host hash event_schema write services c revoked run type task_id status message
              ids rest))
  unfolding emitting
  emitting-Kept run type task_id status message ids rest (inv, reached, tracked) k =
      let out = emit hash event_schema write run.recorder type task_id status message ids in
      let after = emitted reached type task_id status message ids in
      outcome-Kept out.1 _ (rest (record run { recorder = out.0 })) (λ e. (inv, after, tracked))
        (λ event. k (record run { recorder = out.0 }) event (inv, after, tracked))

  pub record_decisions-Kept :
      (run : Run World) (t : Task) (decisions : List Decision)
      → Kept run
      → Kept (
          run_of (record_decisions host hash event_schema write services c revoked run t decisions))
  unfolding record_decisions
  record_decisions-Kept run t [] h = h
  record_decisions-Kept run t (d ∷ decisions) (inv, reached, tracked) =
      let status : String = if d.decision == decision_deny then "failed" else "success" in
      let out = emit_policy_decision hash event_schema write run.recorder t.id status d in
      let after = decided reached t.id status d in
      outcome-Kept out.1 _ _ (λ e. (inv, after, tracked))
        (λ event.
          record_decisions-Kept
            (record run { recorder = out.0; policy_decisions = run.policy_decisions ++ d ∷ [] }) t
            decisions (inv, after, tracked))

  pub fail_task-Kept :
      (run : Run World) (t : Task) (phase reason : String) (ending : Ending)
      → Kept run
      → Kept (
          run_of
            (fail_task host hash event_schema write services c revoked run t phase reason ending))
  unfolding fail_task
  fail_task-Kept run t phase reason ending (inv, reached, tracked) = (
    inv,
    emitted reached "task_finished" t.id "failed" reason [],
    set_status-Tracked t.id "failed" c.tasks run.states tracked,
  )

  pub record_artifacts-Kept :
      (run : Run World) (t : Task) (artifacts : List ArtifactRef)
      → Kept run
      → Kept (
          run_of (record_artifacts host hash event_schema write services c revoked run t artifacts))
  unfolding record_artifacts
  record_artifacts-Kept run t [] h = h
  record_artifacts-Kept run t (a ∷ artifacts) (inv, reached, tracked) =
      let out =
        emit hash event_schema write run.recorder "artifact_recorded" t.id "success" a.path
          (a.artifact_id ∷ []) in
      let after = emitted reached "artifact_recorded" t.id "success" a.path (a.artifact_id ∷ []) in
      outcome-Kept out.1 _ _ (λ e. (inv, after, tracked))
        (λ event.
          record_artifacts-Kept (with_artifact (record run { recorder = out.0 }) t a event) t
            artifacts (inv, after, tracked))

  pub finish_task-Kept :
      (t : Task) (artifacts : List ArtifactRef) (run : Run World)
      → Kept run
      → Kept (run_of (finish_task host hash event_schema write services c revoked t artifacts run))
  unfolding finish_task
  finish_task-Kept t artifacts run h =
      emitting-Kept run "task_finished" t.id "success" "task completed"
        (map (λ a. a.artifact_id) artifacts)
        (finished host hash event_schema write services c revoked t) h
        (λ r event (inv, reached, tracked).
          (inv, reached, set_status-Tracked t.id "success" c.tasks r.states tracked))

  executed_world :
      (run : Run World) (w : World) → Inv w → Kept run → Kept (record run { world = w })
  executed_world run w inv (_, reached, tracked) = (inv, reached, tracked)

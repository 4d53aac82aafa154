-- ===== src/Run/Executor/Loop/Progress.antt =====
-- A task that the loop starts is completed, or the loop stops there.
use ao_covenant.Base.{
  ℕ, ◌+◌, String, Bool, Option, none, some, List, [], ◌∷◌, ◌++◌, ◌≡◌, arith, ◌==◌, if◌then◌else◌,
  Outcome, ok, err, map,
}
use ao_covenant.Base.Dict.{Dict}
use ao_covenant.Text.{Host}
use ao_covenant.Policy.Types.{Decision, decision_deny}
use ao_covenant.Contract.Types.{Contract, Task}
use ao_covenant.Run.Types.{Event, EventHashPayload, ArtifactRef}
use ao_covenant.Run.Recorder.{RecorderError, emit, emit_policy_decision}
use ao_covenant.Run.Executor.{
  Services, Run, Ending, context_error, denied, task_failed, out_of_fuel, Step, going, stopped,
  and_then, first_denied_decision, evaluate_task_policy, execute_task, failure_phase_for_task,
}
use ao_covenant.Run.Executor.Loop.{
  emitting, record_decisions, fail_task, record_artifacts, finish_task, execute_decided, start_task,
  with_artifact, denial, finished, decide_task,
}

abbrev pub InTime : Ending → Type 0
InTime out_of_fuel = ⊥
InTime _ = Unit

module _ {World : Type 0} where
  -- The step has not run out of fuel, and goes on with a run that satisfies the predicate.
  abbrev pub Goes : (Run World → Type 0) → Step World → Type 0
  Goes P (going run) = P run
  Goes P (stopped run ending) = InTime ending

  pub and_then-Goes :
      (P Q : Run World → Type 0) (s : Step World) (rest : Run World → Step World)
      → Goes P s
      → ((r : Run World) → P r → Goes Q (rest r))
      → Goes Q (and_then s rest)
  and_then-Goes P Q (going r) rest h k = k r h
  and_then-Goes P Q (stopped r e) rest h k = h

  pub outcome-Goes :
      (Q : Run World → Type 0) (out : Outcome RecorderError Event)
      (failed : RecorderError → Step World) (rest : Event → Step World)
      → ((e : RecorderError) → Goes Q (failed e))
      → ((event : Event) → Goes Q (rest event))
      → Goes Q (elim out [ err e ↦ failed e | ok event ↦ rest event ])
  outcome-Goes Q (ok event) failed rest h k = k event
  outcome-Goes Q (err e) failed rest h k = h e

  -- This many tasks are completed.
  abbrev pub Done : ℕ → Run World → Type 0
  Done n run = run.completed ≡ n

module _ {World : Type 0} (host : Host) (hash : EventHashPayload → String)
    (event_schema : Event → Bool) (write : Event → Bool) (services : Services World) (c : Contract)
    (revoked : Dict Bool) where
  pub emitting-Goes :
      (Q : Run World → Type 0) (n : ℕ) (run : Run World) (type task_id status message : String)
      (ids : List String) (rest : Run World → Event → Step World)
      → Done n run
      → ((r : Run World) (event : Event) → Done n r → Goes Q (rest r event))
      → Goes Q (
          emitting host hash event_schema write services c revoked run type task_id status message
            ids rest)
  unfolding emitting
  emitting-Goes Q n run type task_id status message ids rest h k =
      let out = emit hash event_schema write run.recorder type task_id status message ids in
      outcome-Goes Q out.1 _ (rest (record run { recorder = out.0 })) (λ e. tt)
        (λ event. k (record run { recorder = out.0 }) event h)

  record_decisions-Goes :
      (n : ℕ) (run : Run World) (t : Task) (decisions : List Decision)
      → Done n run
      → Goes
          (Done n)
          (record_decisions host hash event_schema write services c revoked run t decisions)
  unfolding record_decisions
  record_decisions-Goes n run t [] h = h
  record_decisions-Goes n run t (d ∷ decisions) h =
      let status : String = if d.decision == decision_deny then "failed" else "success" in
      let out = emit_policy_decision hash event_schema write run.recorder t.id status d in
      outcome-Goes (Done n) out.1 _ _ (λ e. tt)
        (λ event.
          record_decisions-Goes n
            (record run { recorder = out.0; policy_decisions = run.policy_decisions ++ d ∷ [] }) t
            decisions h)

  record_artifacts-Goes :
      (n : ℕ) (run : Run World) (t : Task) (artifacts : List ArtifactRef)
      → Done n run
      → Goes
          (Done n)
          (record_artifacts host hash event_schema write services c revoked run t artifacts)
  unfolding record_artifacts
  record_artifacts-Goes n run t [] h = h
  record_artifacts-Goes n run t (a ∷ artifacts) h =
      let out =
        emit hash event_schema write run.recorder "artifact_recorded" t.id "success" a.path
          (a.artifact_id ∷ []) in
      outcome-Goes (Done n) out.1 _ _ (λ e. tt)
        (λ event.
          record_artifacts-Goes n (with_artifact (record run { recorder = out.0 }) t a event) t
            artifacts h)

  finish_task-Goes :
      (n : ℕ) (t : Task) (artifacts : List ArtifactRef) (run : Run World)
      → Done n run
      → Goes
          (Done (n + 1))
          (finish_task host hash event_schema write services c revoked t artifacts run)
  unfolding finish_task
  finish_task-Goes n t artifacts run h =
      emitting-Goes (Done (n + 1)) n run "task_finished" t.id "success" "task completed"
        (map (λ a. a.artifact_id) artifacts)
        (finished host hash event_schema write services c revoked t) h (λ r event done. omega arith)

  executed-Goes :
      (n : ℕ) (t : Task) (run : Run World) (out : Outcome String (List ArtifactRef))
      → Done n run
      → Goes (Done (n + 1)) (elim out [
        | err e ↦
            fail_task host hash event_schema write services c revoked run t
              (failure_phase_for_task t)
              e
              (task_failed t.id e)
        | ok artifacts ↦
            and_then
              (record_artifacts host hash event_schema write services c revoked run t artifacts)
              (finish_task host hash event_schema write services c revoked t artifacts)
      ])
  unfolding fail_task
  executed-Goes n t run (err e) h = tt
  executed-Goes n t run (ok artifacts) h =
      and_then-Goes (Done n) (Done (n + 1))
        (record_artifacts host hash event_schema write services c revoked run t artifacts)
        (finish_task host hash event_schema write services c revoked t artifacts)
        (record_artifacts-Goes n run t artifacts h) (finish_task-Goes n t artifacts)

  denied_or_executed-Goes :
      (n : ℕ) (t : Task) (run : Run World) (found : Option Decision)
      → Done n run
      → let out = execute_task services c run.states run.world t in
        let run' = record run { world = out.0 } in
        Goes (Done (n + 1)) (elim found [
          | some d ↦
              fail_task host hash event_schema write services c revoked run t "policy"
                (denial host hash event_schema write services c revoked t d)
                (denied t.id d)
          | none ↦ elim out.1 [
            | err e ↦
                fail_task host hash event_schema write services c revoked run' t
                  (failure_phase_for_task t)
                  e
                  (task_failed t.id e)
            | ok artifacts ↦
                and_then
                  (record_artifacts host hash event_schema write services c revoked run' t
                    artifacts)
                  (finish_task host hash event_schema write services c revoked t artifacts)
          ]
        ])
  unfolding fail_task
  denied_or_executed-Goes n t run (some d) h = tt
  denied_or_executed-Goes n t run none h =
      let out = execute_task services c run.states run.world t in
      executed-Goes n t (record run { world = out.0 }) out.1 h

  execute_decided-Goes :
      (n : ℕ) (t : Task) (decisions : List Decision) (run : Run World)
      → Done n run
      → Goes
          (Done (n + 1))
          (execute_decided host hash event_schema write services c revoked t decisions run)
  unfolding execute_decided
  execute_decided-Goes n t decisions run h =
      denied_or_executed-Goes n t run (first_denied_decision decisions) h

  not_cancelled-Goes :
      (n : ℕ) (t : Task) (run : Run World) (cancelled : Option String)
      → Done n run
      → Goes (Done (n + 1)) (elim cancelled [
        | some e ↦ stopped run (context_error e)
        | none ↦
            emitting host hash event_schema write services c revoked run "task_started" t.id
              "success" "task started" []
              (decide_task host hash event_schema write services c revoked t)
      ])
  not_cancelled-Goes n t run (some e) h = tt
  not_cancelled-Goes n t run none h =
      emitting-Goes (Done (n + 1)) n run "task_started" t.id "success" "task started" []
        (decide_task host hash event_schema write services c revoked t) h
        (λ r event done.
          let decisions = evaluate_task_policy host c revoked t (services.now r.world) in
          and_then-Goes (Done n) (Done (n + 1))
            (record_decisions host hash event_schema write services c revoked r t decisions)
            (execute_decided host hash event_schema write services c revoked t decisions)
            (record_decisions-Goes n r t decisions done) (execute_decided-Goes n t decisions))

  pub start_task-Goes :
      (n : ℕ) (t : Task) (run : Run World)
      → Done n run
      → Goes (Done (n + 1)) (start_task host hash event_schema write services c revoked t run)
  unfolding start_task
  start_task-Goes n t run h = not_cancelled-Goes n t run (services.cancelled run.world) h

-- ===== src/Run/Executor/Loop.antt =====
-- The loop of `Execute` over the tasks, in internal/run/executor.go.
pub mod States
pub mod Effects
pub mod Events
pub mod Kept
pub mod Progress
pub mod Fuel
use ao_covenant.Base.{
  ℕ, zero, suc, ◌+◌, String, ◌<>◌, Bool, true, false, not, Option, none, some, List, [], ◌∷◌, ◌++◌,
  length, leb, ◌==◌, if◌then◌else◌, Outcome, ok, err, map,
}
use ao_covenant.Base.Dict.{Dict, lookup, insert}
use ao_covenant.Text.{Host}
use ao_covenant.Policy.Types.{Decision, decision_deny}
use ao_covenant.Contract.Types.{Contract, Task}
use ao_covenant.Run.Types.{Event, EventHashPayload, ArtifactRef}
use ao_covenant.Run.Recorder.{
  Recorder, RecorderError, emit, emit_policy_decision, new_failure_record, new_recorder,
}
use ao_covenant.Run.Executor.{
  Services, TaskState, Run, Ending, ledger_error, context_error, denied, task_failed, no_progress,
  out_of_fuel, Step, going, stopped, and_then, status_of, set_status, dependencies_complete,
  first_denied_decision, failure_phase_for_task, evaluate_task_policy, execute_task,
}

-- Go's zero event, which a failed `emit` returns.
abbrev pub no_event : Event
no_event = record {
  schema_version = "";
  event_id = "";
  sequence = 0;
  run_id = "";
  previous_event_hash = "";
  event_hash = "";
  type = "";
  task_id = "";
  status = "";
  message = "";
  artifact_ids = [];
  decision_id = "";
  decision = "";
  effect_type = "";
  resource = "";
  approval_ticket_id = "";
}

abbrev pub event_or_zero : Outcome RecorderError Event → Event
event_or_zero (ok event) = event
event_or_zero (err e) = no_event

abbrev pub ids_or_nil : Option (List String) → List String
ids_or_nil none = []
ids_or_nil (some ids) = ids

-- `taskArtifactIDs[id] = append(taskArtifactIDs[id], artifactID)`
abbrev pub add_artifact_id : String → String → Dict (List String) → Dict (List String)
add_artifact_id id artifact_id ids = insert id (ids_or_nil (lookup ids id) ++ artifact_id ∷ []) ids

abbrev pub with_artifact : {World : Type 0} → Run World → Task → ArtifactRef → Event → Run World
with_artifact run task a event = record run {
  artifacts = run.artifacts ++ record a { producer_event_id = event.event_id } ∷ [];
  task_artifact_ids = add_artifact_id task.id a.artifact_id run.task_artifact_ids;
}

-- The states before the loop.
abbrev pub initial_states : List Task → List TaskState
initial_states = map (λ t. record { task = t; status = "" })

module _ {World : Type 0} (host : Host) (hash : EventHashPayload → String)
    (event_schema : Event → Bool) (write : Event → Bool) (services : Services World) (c : Contract)
    (revoked : Dict Bool) where
  -- An event is written, or the run ends with the recorder's error.
  unfoldable pub emitting :
      Run World
      → (event_type task_id status message : String) → List String
      → (Run World → Event → Step World)
      → Step World
  emitting run type task_id status message ids rest =
      let out = emit hash event_schema write run.recorder type task_id status message ids in
      let run' = record run { recorder = out.0 } in
      elim out.1 [ err e ↦ stopped run' (ledger_error e) | ok event ↦ rest run' event ]

  -- The loop over the decisions of a task.
  unfoldable pub record_decisions : Run World → Task → List Decision → Step World
  record_decisions run task [] = going run
  record_decisions run task (d ∷ decisions) =
      let status = if d.decision == decision_deny then "failed" else "success" in
      let out = emit_policy_decision hash event_schema write run.recorder task.id status d in
      elim out.1 [
        | err e ↦ stopped (record run { recorder = out.0 }) (ledger_error e)
        | ok event ↦
            record_decisions
              (record run { recorder = out.0; policy_decisions = run.policy_decisions ++ d ∷ [] })
              task decisions
      ]

  -- The end of a task that is denied or fails; the error of this `emit` is dropped.
  unfoldable pub fail_task : Run World → Task → (phase reason : String) → Ending → Step World
  fail_task run task phase reason ending =
      let out =
        emit hash event_schema write run.recorder "task_finished" task.id "failed" reason [] in
      let sequence = length run.failures + 1 in
      stopped
        (record run {
          recorder = out.0;
          states = set_status task.id "failed" run.states;
          failures =
              run.failures ++ new_failure_record sequence (event_or_zero out.1) phase reason ∷ [];
        })
        ending

  -- The loop over the artifacts of a task.
  unfoldable pub record_artifacts : Run World → Task → List ArtifactRef → Step World
  record_artifacts run task [] = going run
  record_artifacts run task (a ∷ artifacts) =
      let out =
        emit hash event_schema write run.recorder "artifact_recorded" task.id "success" a.path
          (a.artifact_id ∷ []) in
      elim out.1 [
        | err e ↦ stopped (record run { recorder = out.0 }) (ledger_error e)
        | ok event ↦
            record_artifacts (with_artifact (record run { recorder = out.0 }) task a event) task
              artifacts
      ]

  abbrev pub finished : Task → Run World → Event → Step World
  finished task run event = going (record run {
    states = set_status task.id "success" run.states;
    completed = run.completed + 1;
  })

  unfoldable pub finish_task : Task → List ArtifactRef → Run World → Step World
  unfolding emitting
  finish_task task artifacts run =
      emitting run "task_finished" task.id "success" "task completed"
        (map (λ a. a.artifact_id) artifacts) (finished task)

  abbrev pub denial : Task → Decision → String
  denial task d =
      "policy denied task "
      <> (host.quote task.id
          <> (" side effect "
              <> (host.quote d.effect_type
                  <> (" on " <> (host.quote d.resource <> (": " <> d.reason))))))

  -- What follows once the decisions are recorded.
  unfoldable pub execute_decided : Task → List Decision → Run World → Step World
  unfolding fail_task record_artifacts finish_task
  execute_decided task decisions run =
      let out = execute_task services c run.states run.world task in
      let run' = record run { world = out.0 } in
      elim (first_denied_decision decisions) [
        | some d ↦ fail_task run task "policy" (denial task d) (denied task.id d)
        | none ↦ elim out.1 [
          | err e ↦ fail_task run' task (failure_phase_for_task task) e (task_failed task.id e)
          | ok artifacts ↦
              and_then (record_artifacts run' task artifacts) (finish_task task artifacts)
        ]
      ]

  -- What follows the event that the task has started.
  abbrev pub decide_task : Task → Run World → Event → Step World
  decide_task task run event =
      let decisions = evaluate_task_policy host c revoked task (services.now run.world) in
      and_then (record_decisions run task decisions) (execute_decided task decisions)

  unfoldable pub start_task : Task → Run World → Step World
  unfolding emitting record_decisions execute_decided
  start_task task run = elim (services.cancelled run.world) [
    | some e ↦ stopped run (context_error e)
    | none ↦ emitting run "task_started" task.id "success" "task started" [] (decide_task task)
  ]

  -- The body of the loop over the tasks.
  unfoldable pub run_task : Task → Run World → Step World
  unfolding start_task
  run_task task run =
      if status_of run.states task.id == "success"
      then going run
      else if not (dependencies_complete run.states task.depends_on)
      then going run
      else start_task task (record run { progress = true })

  unfoldable pub run_tasks : List Task → Run World → Step World
  unfolding run_task
  run_tasks [] run = going run
  run_tasks (task ∷ tasks) run = and_then (run_task task run) (run_tasks tasks)

  -- The outer loop, on fuel.
  unfoldable pub run_rounds : ℕ → Run World → Step World
  unfolding run_tasks
  run_rounds zero run = stopped run out_of_fuel
  run_rounds (suc fuel) run =
      let next = and_then (run_tasks c.tasks (record run { progress = false })) (λ run'.
        elim run'.progress [ true ↦ run_rounds fuel run' | false ↦ stopped run' no_progress ]) in
      if leb (length c.tasks) run.completed then going run else next

  unfoldable pub initial_run : String → World → Run World
  initial_run run_id world = record {
    world = world;
    recorder = new_recorder run_id;
    states = initial_states c.tasks;
    artifacts = [];
    task_artifact_ids = [];
    policy_decisions = [];
    failures = [];
    completed = 0;
    progress = false;
  }

  abbrev pub begin_rounds : Run World → Event → Step World
  begin_rounds run event = run_rounds (suc (length c.tasks)) run

  -- From the first event to the end of the loop; each round but the last completes a task.
  unfoldable pub execute_tasks : String → World → Step World
  unfolding emitting run_rounds initial_run
  execute_tasks run_id world =
      emitting (initial_run run_id world) "run_started" "" "success" "run accepted" [] begin_rounds

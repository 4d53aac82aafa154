-- ===== src/Run/Executor/Loop/Kept.antt =====
-- What the task loop keeps: the adapter is only called on side effects that the policy allows, and
-- the recorder only moves on by its own calls.
use ao_covenant.Base.{
  ℕ, zero, suc, String, Bool, true, false, Option, none, some, List, [], ◌∷◌, ◌≡◌, inl, inr, refl,
  length, leb, ◌==◌, Outcome, ok, err, All, Bool-cases,
}
use ao_covenant.Base.Dict.{Dict}
use ao_covenant.Text.{Host}
use ao_covenant.Policy.Types.{ActionRef, Decision}
use ao_covenant.Contract.Types.{Contract, Task}
use ao_covenant.Run.Types.{Event, EventHashPayload, ArtifactRef}
use ao_covenant.Run.Recorder.Steps.{start}
use ao_covenant.Run.Executor.{
  Services, Run, stopped, and_then, first_denied_decision, evaluate_task_policy, execute_task,
  status_of, dependencies_complete, failure_phase_for_task, denied, task_failed, context_error,
  no_progress,
}
use ao_covenant.Run.Executor.Loop.{
  emitting, record_decisions, fail_task, record_artifacts, finish_task, execute_decided, start_task,
  run_task, run_tasks, run_rounds, initial_run, execute_tasks, denial, finished, decide_task,
  begin_rounds,
}
use ao_covenant.Run.Executor.Loop.States.{initial_states-Tracked}
use ao_covenant.Run.Executor.Loop.Effects.{Allowed, policy-allows, execute_task-Inv}
use ao_covenant.Run.Executor.Loop.Events.{
  run_of, Kept, and_then-Holds, emitting-Kept, record_decisions-Kept, fail_task-Kept,
  record_artifacts-Kept, finish_task-Kept,
}

module _ {World : Type 0} (host : Host) (hash : EventHashPayload → String)
    (event_schema : Event → Bool) (write : Event → Bool) (services : Services World) (c : Contract)
    (revoked : Dict Bool) (run_id : String) (Inv : World → Type 0)
    (keeps : (w : World) (t : Task) (a : ActionRef) (i now : ℕ)
      → Allowed host c revoked t now a
      → Inv w
      → Inv (services.execute_action w t a i).0) where
  abbrev pub StillKept : Run World → Type 0
  StillKept = Kept host hash event_schema write services c revoked run_id Inv

  -- What follows an action, by its outcome.
  executed-Kept :
      (t : Task) (run : Run World) (out : Outcome String (List ArtifactRef))
      → StillKept run
      → StillKept (
          run_of (elim out [
            | err e ↦
                fail_task host hash event_schema write services c revoked run t
                  (failure_phase_for_task t)
                  e
                  (task_failed t.id e)
            | ok artifacts ↦
                and_then
                  (record_artifacts host hash event_schema write services c revoked run t artifacts)
                  (finish_task host hash event_schema write services c revoked t artifacts)
          ]))
  executed-Kept t run (err e) h =
      fail_task-Kept host hash event_schema write services c revoked run_id Inv run t
        (failure_phase_for_task t) e (task_failed t.id e) h
  executed-Kept t run (ok artifacts) h =
      and_then-Holds StillKept
        (record_artifacts host hash event_schema write services c revoked run t artifacts)
        (finish_task host hash event_schema write services c revoked t artifacts)
        (record_artifacts-Kept host hash event_schema write services c revoked run_id Inv run t
          artifacts h)
        (finish_task-Kept host hash event_schema write services c revoked run_id Inv t artifacts)

  -- What follows the decisions, by the first that denies.
  denied_or_executed-Kept :
      (t : Task) (now : ℕ) (run : Run World) (found : Option Decision)
      → (found ≡ none → All (Allowed host c revoked t now) t.declared_side_effects)
      → StillKept run
      → let out = execute_task services c run.states run.world t in
        let run' = record run { world = out.0 } in
        StillKept (
          run_of (elim found [
            | some d ↦
                fail_task host hash event_schema write services c revoked run t "policy"
                  (denial host hash event_schema write services c revoked t d)
                  (denied t.id d)
            | none ↦ elim out.1 [
              | err e ↦
                  fail_task host hash event_schema write services c revoked run' t
                    (failure_phase_for_task t)
                    e
                    (task_failed t.id e)
              | ok artifacts ↦
                  and_then
                    (record_artifacts host hash event_schema write services c revoked run' t
                      artifacts)
                    (finish_task host hash event_schema write services c revoked t artifacts)
            ]
          ]))
  denied_or_executed-Kept t now run (some d) allowed h =
      fail_task-Kept host hash event_schema write services c revoked run_id Inv run t "policy"
        (denial host hash event_schema write services c revoked t d) (denied t.id d) h
  denied_or_executed-Kept t now run none allowed (inv, reached, tracked) =
      let out = execute_task services c run.states run.world t in
      executed-Kept t (record run { world = out.0 }) out.1
        (
          execute_task-Inv host services c revoked Inv keeps run t now (allowed refl) inv,
          reached,
          tracked,
        )

  execute_decided-Kept :
      (t : Task) (decisions : List Decision) (now : ℕ) (run : Run World)
      → (first_denied_decision decisions ≡ none
          → All (Allowed host c revoked t now) t.declared_side_effects)
      → StillKept run
      → StillKept
          (run_of (execute_decided host hash event_schema write services c revoked t decisions run))
  unfolding execute_decided
  execute_decided-Kept t decisions now run allowed h =
      denied_or_executed-Kept t now run (first_denied_decision decisions) allowed h

  not_cancelled-Kept :
      (t : Task) (run : Run World) (cancelled : Option String)
      → StillKept run
      → StillKept (
          run_of (elim cancelled [
            | some e ↦ stopped run (context_error e)
            | none ↦
                emitting host hash event_schema write services c revoked run "task_started" t.id
                  "success" "task started" []
                  (decide_task host hash event_schema write services c revoked t)
          ]))
  not_cancelled-Kept t run (some e) h = h
  not_cancelled-Kept t run none h =
      emitting-Kept host hash event_schema write services c revoked run_id Inv run "task_started"
        t.id "success" "task started" []
        (decide_task host hash event_schema write services c revoked t) h
        (λ r event kept.
          let now = services.now r.world in
          let decisions = evaluate_task_policy host c revoked t now in
          and_then-Holds StillKept
            (record_decisions host hash event_schema write services c revoked r t decisions)
            (execute_decided host hash event_schema write services c revoked t decisions)
            (record_decisions-Kept host hash event_schema write services c revoked run_id Inv r t
              decisions kept)
            (λ r' kept'.
              execute_decided-Kept t decisions now r' (policy-allows host c revoked t now) kept'))

  start_task-Kept :
      (t : Task) (run : Run World)
      → StillKept run
      → StillKept (run_of (start_task host hash event_schema write services c revoked t run))
  unfolding start_task
  start_task-Kept t run h = not_cancelled-Kept t run (services.cancelled run.world) h

  run_task-Kept :
      (t : Task) (run : Run World)
      → StillKept run
      → StillKept (run_of (run_task host hash event_schema write services c revoked t run))
  unfolding run_task
  run_task-Kept t run h = elim (Bool-cases (status_of run.states t.id == "success")) [
    | inl finished ↦ rw finished h
    | inr open_task ↦ elim (Bool-cases (dependencies_complete run.states t.depends_on)) [
      | inr waiting ↦ rw (open_task, waiting) h
      | inl ready ↦ rw (open_task, ready) (start_task-Kept t (record run { progress = true }) h)
    ]
  ]

  run_tasks-Kept :
      (tasks : List Task) (run : Run World)
      → StillKept run
      → StillKept (run_of (run_tasks host hash event_schema write services c revoked tasks run))
  unfolding run_tasks
  run_tasks-Kept [] run h = h
  run_tasks-Kept (t ∷ tasks) run h =
      and_then-Holds StillKept (run_task host hash event_schema write services c revoked t run)
        (run_tasks host hash event_schema write services c revoked tasks) (run_task-Kept t run h)
        (run_tasks-Kept tasks)

  next_round-Kept :
      (progress : Bool) (run : Run World) (fuel : ℕ)
      → StillKept run
      → StillKept (run_of (run_rounds host hash event_schema write services c revoked fuel run))
      → StillKept (
          run_of (elim progress [
            | true ↦ run_rounds host hash event_schema write services c revoked fuel run
            | false ↦ stopped run no_progress
          ]))
  next_round-Kept true run fuel h more = more
  next_round-Kept false run fuel h more = h

  run_rounds-Kept :
      (fuel : ℕ) (run : Run World)
      → StillKept run
      → StillKept (run_of (run_rounds host hash event_schema write services c revoked fuel run))
  unfolding run_rounds
  run_rounds-Kept zero run h = h
  run_rounds-Kept (suc fuel) run h = elim (Bool-cases (leb (length c.tasks) run.completed)) [
    | inl over ↦ rw over h
    | inr more ↦ rw more (
        and_then-Holds StillKept
          (run_tasks host hash event_schema write services c revoked c.tasks
            (record run { progress = false }))
          (λ r. elim r.progress [
            | true ↦ run_rounds host hash event_schema write services c revoked fuel r
            | false ↦ stopped r no_progress
          ])
          (run_tasks-Kept c.tasks (record run { progress = false }) h)
          (λ r kept. next_round-Kept r.progress r fuel kept (run_rounds-Kept fuel r kept)))
  ]

  -- Whatever property of the host the adapter keeps on every call for a side effect that the policy
  -- allows, the task loop keeps, however it ends; its recorder has come to its state by emitting calls
  -- alone; and it has one state for each task of the contract, those of the same id with one status.
  pub execute_tasks-Kept :
      (world : World)
      → Inv world
      → StillKept
          (run_of (execute_tasks host hash event_schema write services c revoked run_id world))
  unfolding execute_tasks initial_run
  execute_tasks-Kept world inv =
      emitting-Kept host hash event_schema write services c revoked run_id Inv
        (initial_run host hash event_schema write services c revoked run_id world) "run_started" ""
        "success" "run accepted" [] (begin_rounds host hash event_schema write services c revoked)
        (inv, start, initial_states-Tracked c.tasks)
        (λ r event kept. run_rounds-Kept (suc (length c.tasks)) r kept)

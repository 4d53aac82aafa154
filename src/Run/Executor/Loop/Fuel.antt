-- ===== src/Run/Executor/Loop/Fuel.antt =====
-- The rounds of the task loop end within their fuel: a round that goes on has completed a task.
use ao_covenant.Base.{
  ℕ, zero, suc, ◌+◌, ◌<◌, ◌≤◌, String, Bool, true, false, List, [], ◌∷◌, ◌≡◌, arith, refl, length,
  leb, ◌==◌, Bool-cases, inl, inr,
}
use ao_covenant.Base.Dict.{Dict}
use ao_covenant.Text.{Host}
use ao_covenant.Contract.Types.{Contract, Task}
use ao_covenant.Run.Types.{Event, EventHashPayload}
use ao_covenant.Run.Executor.{
  Services, Run, no_progress, Step, going, stopped, status_of, dependencies_complete,
}
use ao_covenant.Run.Executor.Loop.{
  start_task, run_task, run_tasks, run_rounds, initial_run, execute_tasks, begin_rounds,
}
use ao_covenant.Run.Executor.Loop.Progress.{
  Goes, Done, and_then-Goes, emitting-Goes, start_task-Goes,
}

module _ {World : Type 0} where
  -- This many were completed when the round began, and one more if it has made progress.
  abbrev Advanced : ℕ → Run World → Type 0
  Advanced n run = (n ≤ run.completed) × (run.progress ≡ true → n < run.completed)

module _ {World : Type 0} (host : Host) (hash : EventHashPayload → String)
    (event_schema : Event → Bool) (write : Event → Bool) (services : Services World) (c : Contract)
    (revoked : Dict Bool) where
  weaken-Goes :
      (P Q : Run World → Type 0) (s : Step World)
      → ((r : Run World) → P r → Q r)
      → Goes P s
      → Goes Q s
  weaken-Goes P Q (going r) f h = f r h
  weaken-Goes P Q (stopped r e) f h = h

  run_task-Goes :
      (n : ℕ) (t : Task) (run : Run World)
      → Advanced n run
      → Goes (Advanced n) (run_task host hash event_schema write services c revoked t run)
  unfolding run_task
  run_task-Goes n t run h = elim (Bool-cases (status_of run.states t.id == "success")) [
    | inl over ↦ rw over h
    | inr open_task ↦ elim (Bool-cases (dependencies_complete run.states t.depends_on)) [
      | inr waiting ↦ rw (open_task, waiting) h
      | inl ready ↦
          rw (open_task, ready)
            (weaken-Goes (Done (run.completed + 1)) (Advanced n)
              (start_task host hash event_schema write services c revoked t
                (record run { progress = true }))
              (λ r done. (omega (arith, h.0), λ moved. omega (arith, h.0)))
              (start_task-Goes host hash event_schema write services c revoked run.completed t
                (record run { progress = true }) refl))
    ]
  ]

  run_tasks-Goes :
      (n : ℕ) (tasks : List Task) (run : Run World)
      → Advanced n run
      → Goes (Advanced n) (run_tasks host hash event_schema write services c revoked tasks run)
  unfolding run_tasks
  run_tasks-Goes n [] run h = h
  run_tasks-Goes n (t ∷ tasks) run h =
      and_then-Goes (Advanced n) (Advanced n)
        (run_task host hash event_schema write services c revoked t run)
        (run_tasks host hash event_schema write services c revoked tasks) (run_task-Goes n t run h)
        (run_tasks-Goes n tasks)

  abbrev pub AllDone : Run World → Type 0
  AllDone run = length c.tasks ≤ run.completed

  all_done :
      (run : Run World)
      → length c.tasks ≤ 0 + run.completed
      → leb (length c.tasks) run.completed ≡ true
  all_done run enough = ground arith

  next_round-Goes :
      (progress : Bool) (run : Run World) (fuel : ℕ)
      → (progress ≡ true
          → Goes AllDone (run_rounds host hash event_schema write services c revoked fuel run))
      → Goes AllDone (elim progress [
        | true ↦ run_rounds host hash event_schema write services c revoked fuel run
        | false ↦ stopped run no_progress
      ])
  next_round-Goes true run fuel more = more refl
  next_round-Goes false run fuel more = tt

  run_rounds-Goes :
      (fuel : ℕ) (run : Run World)
      → length c.tasks ≤ fuel + run.completed
      → Goes AllDone (run_rounds host hash event_schema write services c revoked (suc fuel) run)
  unfolding run_rounds
  run_rounds-Goes zero run enough = rw (all_done run enough) (ground (arith, enough))
  run_rounds-Goes (suc fuel) run enough = elim (Bool-cases (leb (length c.tasks) run.completed)) [
    | inl over ↦ rw over (ground arith)
    | inr more ↦ rw more (
        and_then-Goes (Advanced run.completed) AllDone
          (run_tasks host hash event_schema write services c revoked c.tasks
            (record run { progress = false }))
          (λ r. elim r.progress [
            | true ↦ run_rounds host hash event_schema write services c revoked (suc fuel) r
            | false ↦ stopped r no_progress
          ])
          (run_tasks-Goes run.completed c.tasks (record run { progress = false })
            (omega arith, λ moved. cc))
          (λ r advanced.
            next_round-Goes r.progress r (suc fuel)
              (λ moved. run_rounds-Goes fuel r (omega (arith, enough, advanced.1 moved)))))
  ]

  -- The task loop is given one round more than the contract has tasks, and never runs out of rounds:
  -- it ends with as many tasks completed as the contract has, or for one of the program's reasons.
  pub execute_tasks-Goes :
      (run_id : String) (world : World)
      → Goes AllDone (execute_tasks host hash event_schema write services c revoked run_id world)
  unfolding execute_tasks initial_run
  execute_tasks-Goes run_id world =
      emitting-Goes host hash event_schema write services c revoked AllDone 0
        (initial_run host hash event_schema write services c revoked run_id world) "run_started" ""
        "success" "run accepted" [] (begin_rounds host hash event_schema write services c revoked)
        refl (λ r event done. run_rounds-Goes (length c.tasks) r (omega arith))

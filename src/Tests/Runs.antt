-- ===== src/Tests/Runs.antt =====
-- The task loop on the sample contract, with an adapter that notes what it is called for.
use ao_covenant.Base.{
  ℕ, Bool, true, false, ◌==◌, none, List, [], ◌∷◌, ◌≡◌, refl, ok, All, string_dec, each,
}
use ao_covenant.Base.Dict.{has, lookup}
use ao_covenant.Text.{decimal6}
use ao_covenant.Paths.{slash_clean}
use ao_covenant.Policy.Types.{ActionRef}
use ao_covenant.Policy.Evaluator.{
  evaluate_action, evaluation_time, matching_approved_ticket, expiry_status, evaluate_task,
}
use ao_covenant.Contract.Types.{Task}
use ao_covenant.Run.Types.{Event}
use ao_covenant.Run.Recorder.{emit, emit_policy_decision}
use ao_covenant.Run.Executor
use ao_covenant.Run.Executor.{Services, Run}
use ao_covenant.Run.Executor.Loop
use ao_covenant.Run.Executor.Loop.{execute_tasks}
use ao_covenant.Run.Executor.Loop.Effects.{Allowed}
use ao_covenant.Run.Executor.Loop.Events.{Kept, run_of}
use ao_covenant.Run.Executor.Loop.Kept.{execute_tasks-Kept}
use ao_covenant.Run.Executor.Loop.Progress.{Goes}
use ao_covenant.Run.Executor.Loop.Fuel.{AllDone, execute_tasks-Goes}
use ao_covenant.Closure
use ao_covenant.Closure.{evaluate}
use ao_covenant.Run.Executor.Finish
use ao_covenant.Run.Executor.Finish.{RunFiles, Identity, Report, succeeded, execute_run}
use ao_covenant.Run.Executor.Finish.Accepted.{Agrees, execute_run-Agrees}
use ao_covenant.Verify.Chain.{verify_chain}
use ao_covenant.Verify.Chain.Executed.{execute_tasks-verify_chain}
use ao_covenant.Tests.Samples.{host, contract, task, command}
use ao_covenant.Tests.Ledgers.{hash, first}

-- The calls of the adapter, the last in front.
abbrev Log : Type 0
Log = List (Task × ActionRef)

abbrev services : Services Log
services = record {
  execute_action = λ log t a index. ((t, a) ∷ log, ok []);
  verify_workspace_writes = λ log writes. ok tt;
  cancelled = λ log. none;
  now = λ log. 5;
}

abbrev finished_run : Run Log
finished_run =
    run_of (execute_tasks host hash (λ e. true) (λ e. true) services contract [] "run-1" [])

run_test : finished_run.world ≡ ((task, command) ∷ [])
unfolding execute_tasks Loop.run_rounds Loop.run_tasks Loop.run_task Loop.start_task
    Loop.execute_decided Loop.record_decisions Loop.finish_task Loop.emitting Loop.initial_run
    Loop.record_artifacts Executor.execute_task Executor.execute_side_effects
    Executor.evaluate_task_policy Executor.status_of Executor.set_status
    Executor.dependencies_complete Executor.first_denied_decision
    Executor.verify_dependencies_succeeded emit emit_policy_decision evaluate_task evaluate_action
    evaluation_time matching_approved_ticket expiry_status has lookup slash_clean decimal6 each
    string_dec
run_test = refl

-- Each call was for a side effect that the policy allowed at some time.
abbrev AllAllowed : Log → Type 0
AllAllowed = All (λ call. (now : ℕ) × Allowed host contract [] call.0 now call.1)

execute_tasks-Kept_example :
    Kept host hash (λ e. true) (λ e. true) services contract [] "run-1" AllAllowed finished_run
execute_tasks-Kept_example =
    execute_tasks-Kept host hash (λ e. true) (λ e. true) services contract [] "run-1" AllAllowed
      (λ log t a index now allowed h. ((now, allowed), h)) [] tt

abbrev later_events : List Event → List Event
later_events [] = []
later_events (e ∷ events) = events

ledger_shape : finished_run.recorder.ledger ≡ (first ∷ later_events finished_run.recorder.ledger)
unfolding execute_tasks Loop.run_rounds Loop.run_tasks Loop.run_task Loop.start_task
    Loop.execute_decided Loop.record_decisions Loop.finish_task Loop.emitting Loop.initial_run
    Loop.record_artifacts Executor.execute_task Executor.execute_side_effects
    Executor.evaluate_task_policy Executor.status_of Executor.set_status
    Executor.dependencies_complete Executor.first_denied_decision
    Executor.verify_dependencies_succeeded emit emit_policy_decision evaluate_task evaluate_action
    evaluation_time matching_approved_ticket expiry_status has lookup slash_clean decimal6 each
    string_dec
ledger_shape = refl

execute_tasks-verify_chain_example :
    verify_chain hash first (later_events finished_run.recorder.ledger) ≡ ok tt
execute_tasks-verify_chain_example =
    execute_tasks-verify_chain host hash (λ e. true) (λ e. true) services contract [] "run-1" []
      first (later_events finished_run.recorder.ledger) ledger_shape

execute_tasks-Goes_example :
    Goes
      (AllDone host hash (λ e. true) (λ e. true) services contract [])
      (execute_tasks host hash (λ e. true) (λ e. true) services contract [] "run-1" [])
execute_tasks-Goes_example =
    execute_tasks-Goes host hash (λ e. true) (λ e. true) services contract [] "run-1" []

abbrev files : RunFiles
files = record {
  flush = λ ledger. ok tt;
  ledger_digest = λ ledger. ok "digest";
  evidence_schema = λ evidence. true;
  write_json = λ evidence. ok tt;
}

abbrev identity : Identity
identity = record { run_id = "run-1"; contract_digest = "contract"; input_snapshots = [] }

abbrev report : Report
report = execute_run host hash (λ e. true) (λ e. true) services files contract [] identity []

abbrev is_succeeded : Report → Bool
is_succeeded (succeeded evidence) = evidence.closure_matrix.status == "accepted"
is_succeeded _ = false

succeeded_test : is_succeeded report ≡ true
unfolding execute_run Finish.finish_execution Finish.finish_run Finish.with_digest
    Finish.write_evidence Finish.evidence_pack Finish.task_statuses evaluate
    Closure.evaluate_obligation Closure.status_after Closure.claiming_task_ids
    Closure.has_successful_task Executor.verify_required_obligations Executor.satisfied_obligations
    execute_tasks Loop.run_rounds Loop.run_tasks Loop.run_task Loop.start_task Loop.execute_decided
    Loop.record_decisions Loop.finish_task Loop.emitting Loop.initial_run Loop.record_artifacts
    Executor.execute_task Executor.execute_side_effects Executor.evaluate_task_policy
    Executor.status_of Executor.set_status Executor.dependencies_complete
    Executor.first_denied_decision Executor.verify_dependencies_succeeded emit emit_policy_decision
    evaluate_task evaluate_action evaluation_time matching_approved_ticket expiry_status has lookup
    slash_clean decimal6 each string_dec
succeeded_test = refl

execute_run-Agrees_example : Agrees report
execute_run-Agrees_example =
    execute_run-Agrees host hash (λ e. true) (λ e. true) services files contract [] identity []

-- ===== src/Tests/Closures.antt =====
-- The closure matrix of a run in which the command's task succeeded.
use ao_covenant.Base.{true, [], ◌∷◌, ◌≡◌, ◌↔◌, refl, All, string_dec}
use ao_covenant.Contract.Types.{Obligation}
use ao_covenant.Closure.{
  Input, evaluate, evaluate_obligation, claiming_task_ids, has_successful_task, status_after,
  status_accepted,
}
use ao_covenant.Base.Dict.{lookup}
use ao_covenant.Closure.Rows.{IsRowsFor, evaluate-IsRowsFor}
use ao_covenant.Closure.Accepted.{Fulfilled, evaluate-accepted}
use ao_covenant.Tests.Samples.{contract}

run : Input
run = record {
  run_id = "run-1";
  contract_digest = "";
  run_status = "success";
  obligations = contract.obligations;
  tasks = contract.tasks;
  task_statuses = ("review", "success") ∷ ("scripted_change", "success") ∷ [];
  task_artifacts = [];
  policy_decisions = [];
}

change : Obligation
change = record { id = "change"; text = "the tests ran"; required = true }

accepted_test : (evaluate run).status ≡ status_accepted
unfolding run evaluate status_after evaluate_obligation claiming_task_ids has_successful_task lookup
    string_dec
accepted_test = refl

evaluate-accepted_example : ((evaluate run).status ≡ status_accepted) ↔ (
    (run.run_status ≡ "success") × All (λ o. o.required ≡ true → Fulfilled run o) run.obligations)
evaluate-accepted_example = evaluate-accepted run

evaluate-IsRowsFor_example : IsRowsFor run run.obligations (evaluate run).rows
evaluate-IsRowsFor_example = evaluate-IsRowsFor run

-- ===== src/Run/Executor.antt =====
-- The task loop of `Execute` in internal/run/executor.go, with what a task executes.
--
-- `World` is what the host keeps between the calls: the adapter may change it, and the clock and
-- the context are read from it. The recorder's parameters are those of Run.Recorder. The task ids
-- are distinct, since `Execute` has validated the contract, so that the map from a task id to its
-- state is the list of the states.
pub mod Loop
pub mod Finish
use ao_covenant.Base.{
  ℕ, zero, suc, ◌+◌, String, Bool, true, false, not, ◌&&◌, ◌||◌, Option, none, some, List, [], ◌∷◌,
  ◌++◌, length, leb, ◌==◌, if◌then◌else◌, Outcome, ok, err, ◌>>=◌, ◌>>◌, fail_if, each,
  contains_string, map,
}
use ao_covenant.Base.Dict.{Dict, lookup, insert}
use ao_covenant.Text.{Host}
use ao_covenant.Policy.Types.{ActionRef, Input, Decision, decision_deny}
use ao_covenant.Policy.Evaluator.{evaluate_task}
use ao_covenant.Contract.Types.{Contract, Task, Obligation}
use ao_covenant.Run.Types.{Event, EventHashPayload, ArtifactRef, FailureRecord}
use ao_covenant.Run.Recorder.{
  Recorder, RecorderError, emit, emit_policy_decision, new_failure_record,
}

-- The adapter's `ExecuteAction`, `verifyWorkspaceWrites`, `ctx.Err()` and `time.Now()`; an error is
-- its message.
pub record Services (World : Type 0) : Type 0 where
  pub execute_action : World → Task → ActionRef → ℕ → World × Outcome String (List ArtifactRef)
  pub verify_workspace_writes : World → List String → Outcome String (Unit {0})
  pub cancelled : World → Option String
  pub now : World → ℕ

pub record TaskState : Type 0 where
  pub task : Task
  pub status : String

-- The variables of `Execute` that the loop changes.
pub record Run (World : Type 0) : Type 0 where
  pub world : World
  pub recorder : Recorder
  pub states : List TaskState
  pub artifacts : List ArtifactRef
  pub task_artifact_ids : Dict (List String)
  pub policy_decisions : List Decision
  pub failures : List FailureRecord
  pub completed : ℕ
  pub progress : Bool

-- Why the loop ended before its time. `denied` and `task_failed` still write the evidence of the
-- failed run; the others return without a result.
pub data Ending : Type 0 where
  ledger_error : RecorderError → Ending
  context_error : String → Ending
  denied : (task : String) → Decision → Ending
  task_failed : (task reason : String) → Ending
  no_progress out_of_fuel : Ending

pub data Step (World : Type 0) : Type 0 where
  going : Run World → Step World
  stopped : Run World → Ending → Step World

abbrev pub and_then : {World : Type 0} → Step World → (Run World → Step World) → Step World
and_then (going run) rest = rest run
and_then (stopped run ending) rest = stopped run ending

-- `states[id].status`
unfoldable pub status_of : List TaskState → String → String
status_of [] id = ""
status_of (s ∷ states) id =
    let rest = status_of states id in if s.task.id == id then s.status else rest

unfoldable pub set_status : String → String → List TaskState → List TaskState
set_status id status [] = []
set_status id status (s ∷ states) =
    let rest = set_status id status states in
    (if s.task.id == id then record s { status = status } else s) ∷ rest

unfoldable pub dependencies_complete : List TaskState → List String → Bool
unfolding status_of
dependencies_complete states [] = true
dependencies_complete states (dep ∷ deps) =
    let rest = dependencies_complete states deps in
    if not (status_of states dep == "success") then false else rest

unfoldable pub first_denied_decision : List Decision → Option Decision
first_denied_decision [] = none
first_denied_decision (d ∷ decisions) =
    let rest = first_denied_decision decisions in
    if d.decision == decision_deny then some d else rest

-- An error here is the text that the message quotes.
unfoldable pub verify_dependencies_succeeded :
    List TaskState → List String → Outcome String (Unit {0})
unfolding status_of
verify_dependencies_succeeded states =
    each (λ dep. fail_if (not (status_of states dep == "success")) dep)

-- `satisfied`
unfoldable pub satisfied_obligations : List TaskState → List String
satisfied_obligations [] = []
satisfied_obligations (s ∷ states) =
    let rest = satisfied_obligations states in
    if s.status == "success" then s.task.obligations ++ rest else rest

unfoldable pub verify_required_obligations : Contract → List TaskState → Outcome String (Unit {0})
unfolding satisfied_obligations
verify_required_obligations c states =
    each
      (λ o. fail_if (o.required && not (contains_string (satisfied_obligations states) o.id)) o.id)
      c.obligations

unfoldable pub failure_phase_for_task : Task → String
failure_phase_for_task task =
    if task.kind == "scripted" || task.kind == "shell" || task.kind == "agent"
    then "adapter"
    else "execution"

-- The policy input of `evaluateTaskPolicy`.
abbrev pub policy_input : Contract → Dict Bool → Task → ℕ → Input
policy_input c revoked task now = record {
  mode = c.policy.mode;
  workspace_reads = c.workspace.reads;
  workspace_writes = c.workspace.writes;
  task_id = task.id;
  actions = task.declared_side_effects;
  approvals = c.approvals;
  evaluation_time = now;
  revoked_approval_ticket_ids = revoked;
}

unfoldable pub evaluate_task_policy : Host → Contract → Dict Bool → Task → ℕ → List Decision
evaluate_task_policy host c revoked task now =
    evaluate_task host (policy_input c revoked task now) (λ index. now)

abbrev pub add_artifacts :
    List ArtifactRef → Outcome String (List ArtifactRef) → Outcome String (List ArtifactRef)
add_artifacts artifacts (ok rest) = ok (artifacts ++ rest)
add_artifacts artifacts (err e) = err e

-- The rest of the actions is only begun behind an action that succeeds.
abbrev pub after_action :
    {World : Type 0}
    → World
    → World × Outcome String (List ArtifactRef)
    → Outcome String (List ArtifactRef)
    → World × Outcome String (List ArtifactRef)
after_action world rest (err e) = (world, err e)
after_action world rest (ok artifacts) = (rest.0, add_artifacts artifacts rest.1)

module _ {World : Type 0} (services : Services World) where
  -- `executeSideEffects`, from the action at `index` on.
  unfoldable pub execute_side_effects :
      World → Task → ℕ → List ActionRef → World × Outcome String (List ArtifactRef)
  execute_side_effects world task index [] = (world, ok [])
  execute_side_effects world task index (action ∷ actions) =
      let step = services.execute_action world task action index in
      let rest = execute_side_effects step.0 task (index + 1) actions in
      after_action step.0 rest step.1

  abbrev pub no_artifacts : Outcome String (Unit {0}) → Outcome String (List ArtifactRef)
  no_artifacts (ok done) = ok []
  no_artifacts (err e) = err e

  unfoldable pub execute_task :
      Contract → List TaskState → World → Task → World × Outcome String (List ArtifactRef)
  execute_task c states world task =
      if task.kind == "scripted" || task.kind == "shell" || task.kind == "agent"
      then execute_side_effects world task 0 task.declared_side_effects
      else if task.kind == "verify"
      then (world, no_artifacts (services.verify_workspace_writes world c.workspace.writes))
      else if task.kind == "review"
      then (world, no_artifacts (verify_dependencies_succeeded states task.depends_on))
      else if task.kind == "evaluate"
      then (world, no_artifacts (verify_required_obligations c states))
      else (world, err "unsupported task kind")

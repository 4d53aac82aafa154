-- ===== src/Run/Executor/Finish.antt =====
-- The end of `Execute` and `finishRun`, in internal/run/executor.go: the evidence of a run.
pub mod Accepted
use ao_covenant.Base.{
  ℕ, String, Bool, not, Option, none, some, List, [], ◌∷◌, if◌then◌else◌, Outcome, ok, err, ◌>>=◌,
  ◌>>◌, fail_if,
}
use ao_covenant.Base.Dict.{Dict}
use ao_covenant.Text.{Host}
use ao_covenant.Contract.Types.{Contract}
use ao_covenant.Closure
use ao_covenant.Closure.{evaluate}
use ao_covenant.Run.Types.{
  Event, EventHashPayload, InputSnapshot, EvidencePack, evidence_pack_schema_version,
}
use ao_covenant.Run.Recorder.{RecorderError, emit}
use ao_covenant.Run.Executor.{
  Services, TaskState, Run, Ending, denied, task_failed, Step, going, stopped,
  verify_required_obligations,
}
use ao_covenant.Run.Executor.Loop.{execute_tasks}

-- The files of the run directory: the flush of the ledger, the digest of its file, the JSON-schema
-- check of the evidence, and the writing of its file. An error is its message.
pub record RunFiles : Type 0 where
  pub flush : List Event → Outcome String (Unit {0})
  pub ledger_digest : List Event → Outcome String String
  pub evidence_schema : EvidencePack → Bool
  pub write_json : EvidencePack → Outcome String (Unit {0})

pub data FinishError : Type 0 where
  run_finished_unrecorded : RecorderError → FinishError
  file_error : String → FinishError
  evidence_schema_invalid : FinishError

-- What `Execute` returns: no result, the evidence of a run that failed with its error, or that of a run
-- that succeeded.
pub data Report : Type 0 where
  ended : Ending → Report
  obligation_unsatisfied : String → Report
  unfinished : FinishError → Report
  failed : EvidencePack → Ending → Report
  succeeded : EvidencePack → Report

unfoldable pub task_statuses : List TaskState → Dict String
task_statuses [] = []
task_statuses (s ∷ states) = (s.task.id, s.status) ∷ task_statuses states

abbrev pub of_file : {A : Type 0} → Outcome String A → Outcome FinishError A
of_file (ok value) = ok value
of_file (err e) = err (file_error e)

abbrev pub of_recorder : Outcome RecorderError Event → Outcome FinishError (Unit {0})
of_recorder (ok event) = ok tt
of_recorder (err e) = err (run_finished_unrecorded e)

-- What the run was begun with.
pub record Identity : Type 0 where
  pub run_id : String
  pub contract_digest : String
  pub input_snapshots : List InputSnapshot

module _ {World : Type 0} (c : Contract) (identity : Identity) where
  abbrev pub closure_input : String → Run World → Closure.Input
  closure_input status run = record {
    run_id = identity.run_id;
    contract_digest = identity.contract_digest;
    run_status = status;
    obligations = c.obligations;
    tasks = c.tasks;
    task_statuses = task_statuses run.states;
    task_artifacts = run.task_artifact_ids;
    policy_decisions = run.policy_decisions;
  }

  unfoldable pub evidence_pack : String → Run World → String → EvidencePack
  evidence_pack status run ledger_digest = record {
    schema_version = evidence_pack_schema_version;
    run_id = identity.run_id;
    contract_digest = identity.contract_digest;
    ledger_digest = ledger_digest;
    run_status = status;
    artifact_manifest = run.artifacts;
    input_snapshots = identity.input_snapshots;
    policy_decisions = run.policy_decisions;
    failures = run.failures;
    closure_matrix = evaluate (closure_input status run);
  }

module _ {World : Type 0} (host : Host) (hash : EventHashPayload → String)
    (event_schema : Event → Bool) (write : Event → Bool) (services : Services World)
    (files : RunFiles) (c : Contract) (revoked : Dict Bool) (identity : Identity) where
  -- The evidence is checked and written.
  unfoldable pub write_evidence : EvidencePack → Outcome FinishError EvidencePack
  write_evidence evidence =
      fail_if (not (files.evidence_schema evidence)) evidence_schema_invalid
      >> of_file (files.write_json evidence)
      >> ok evidence

  -- The evidence, once the digest of the ledger is known.
  unfoldable pub with_digest : String → Run World → String → Outcome FinishError EvidencePack
  with_digest status run digest = write_evidence (evidence_pack c identity status run digest)

  unfoldable pub finish_run : String → String → Run World → Outcome FinishError EvidencePack
  finish_run status message run =
      let out = emit hash event_schema write run.recorder "run_finished" "" status message [] in
      of_recorder out.1
      >> of_file (files.flush out.0.ledger)
      >> (of_file (files.ledger_digest out.0.ledger) >>= with_digest status run)

  abbrev pub failing : Ending → Outcome FinishError EvidencePack → Report
  failing ending (ok evidence) = failed evidence ending
  failing ending (err e) = unfinished e

  abbrev pub succeeding : Outcome FinishError EvidencePack → Report
  succeeding (ok evidence) = succeeded evidence
  succeeding (err e) = unfinished e

  abbrev pub satisfied : Run World → Outcome String (Unit {0}) → Report
  satisfied run (ok done) = succeeding (finish_run "success" "run completed" run)
  satisfied run (err id) = obligation_unsatisfied id

  -- What follows the loop.
  unfoldable pub finish_execution : Step World → Report
  finish_execution (going run) = satisfied run (verify_required_obligations c run.states)
  finish_execution (stopped run (denied task decision)) =
      failing (denied task decision) (finish_run "failed" "run failed" run)
  finish_execution (stopped run (task_failed task reason)) =
      failing (task_failed task reason) (finish_run "failed" "run failed" run)
  finish_execution (stopped run ending) = ended ending

  -- From the first event to the result.
  unfoldable pub execute_run : World → Report
  execute_run world =
      finish_execution
        (execute_tasks host hash event_schema write services c revoked identity.run_id world)

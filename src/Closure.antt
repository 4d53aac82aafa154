-- ===== src/Closure.antt =====
-- internal/closure: which obligations of a run are closed by its evidence.
pub mod Accepted
pub mod Rows
use ao_covenant.Base.{
  String, Bool, true, false, not, ◌&&◌, ◌||◌, Option, none, some, List, [], ◌∷◌, ◌++◌,
  contains_string, ◌==◌, if◌then◌else◌,
}
use ao_covenant.Base.Dict.{Dict, lookup}
use ao_covenant.Policy.Types.{Decision}
use ao_covenant.Contract.Types.{Obligation, Task}

abbrev pub matrix_schema_version : String
matrix_schema_version = "covenant.closure-matrix.v1"

abbrev pub status_accepted : String
status_accepted = "accepted"

abbrev pub status_rejected : String
status_rejected = "rejected"

abbrev pub row_status_closed : String
row_status_closed = "closed"

abbrev pub row_status_open : String
row_status_open = "open"

pub record Input : Type 0 where
  pub run_id : String
  pub contract_digest : String
  pub run_status : String
  pub obligations : List Obligation
  pub tasks : List Task
  pub task_statuses : Dict String
  pub task_artifacts : Dict (List String)
  pub policy_decisions : List Decision

pub record Row : Type 0 where
  pub obligation_id : String
  pub required : Bool
  pub status : String
  pub task_ids : List String
  pub artifact_ids : List String
  pub policy_decision_ids : List String
  pub reason : String

pub record Matrix : Type 0 where
  pub schema_version : String
  pub run_id : String
  pub contract_digest : String
  pub status : String
  pub rows : List Row

-- A missing key of `map[string]string` reads as "", and one of `map[string][]string` as nil.
abbrev pub or_empty : Option String → String
or_empty none = ""
or_empty (some s) = s

abbrev or_nil : Option (List String) → List String
or_nil none = []
or_nil (some l) = l

unfoldable pub claiming_task_ids : List Task → String → List String
claiming_task_ids [] obligation_id = []
claiming_task_ids (task ∷ tasks) obligation_id =
    let rest = claiming_task_ids tasks obligation_id in
    if contains_string task.obligations obligation_id then task.id ∷ rest else rest

unfoldable pub artifact_ids_for_tasks : Dict (List String) → List String → List String
artifact_ids_for_tasks artifacts [] = []
artifact_ids_for_tasks artifacts (id ∷ task_ids) =
    or_nil (lookup artifacts id) ++ artifact_ids_for_tasks artifacts task_ids

unfoldable pub policy_decision_ids_for_tasks : List Decision → List String → List String
policy_decision_ids_for_tasks [] task_ids = []
policy_decision_ids_for_tasks (decision ∷ decisions) task_ids =
    let rest = policy_decision_ids_for_tasks decisions task_ids in
    if contains_string task_ids decision.task_id then decision.decision_id ∷ rest else rest

unfoldable pub has_successful_task : Dict String → List String → Bool
has_successful_task statuses [] = false
has_successful_task statuses (id ∷ task_ids) =
    or_empty (lookup statuses id) == "success" || has_successful_task statuses task_ids

module _ (input : Input) where
  unfoldable pub evaluate_obligation : Obligation → Row
  evaluate_obligation obligation =
      let task_ids = claiming_task_ids input.tasks obligation.id in
      let closed =
        input.run_status == "success" && has_successful_task input.task_statuses task_ids in
      record {
        obligation_id = obligation.id;
        required = obligation.required;
        status =
            if not (input.run_status == "success")
            then row_status_open
            else if closed
            then row_status_closed
            else row_status_open;
        task_ids = task_ids;
        artifact_ids = artifact_ids_for_tasks input.task_artifacts task_ids;
        policy_decision_ids = policy_decision_ids_for_tasks input.policy_decisions task_ids;
        reason =
            if not (input.run_status == "success")
            then "run did not finish successfully"
            else if closed
            then "closed by successful task evidence"
            else "no successful task claimed obligation";
      }

  unfoldable pub evaluate_rows : List Obligation → List Row
  evaluate_rows [] = []
  evaluate_rows (obligation ∷ obligations) =
      evaluate_obligation obligation ∷ evaluate_rows obligations

  -- The status after the loop: a required row that is not closed rejects.
  unfoldable pub status_after : String → List Obligation → String
  status_after status [] = status
  status_after status (obligation ∷ obligations) =
      let row = evaluate_obligation obligation in
      status_after
        (if obligation.required && not (row.status == row_status_closed)
          then status_rejected
          else status)
        obligations

  unfoldable pub evaluate : Matrix
  evaluate = record {
    schema_version = matrix_schema_version;
    run_id = input.run_id;
    contract_digest = input.contract_digest;
    status =
        if not (input.run_status == "success")
        then status_rejected
        else status_after status_accepted input.obligations;
    rows = evaluate_rows input.obligations;
  }

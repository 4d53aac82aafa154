-- ===== src/Closure/Rows.antt =====
-- What the rows of the matrix cite.
use ao_covenant.Base.{
  String, true, List, [], ◌∷◌, contains_string, ◌≡◌, ◌↔◌, arith, Any, Any-map, refl,
}
use ao_covenant.Policy.Types.{Decision}
use ao_covenant.Contract.Types.{Obligation, Task}
use ao_covenant.Closure.{
  Input, Row, claiming_task_ids, policy_decision_ids_for_tasks, evaluate_obligation, evaluate_rows,
  evaluate,
}

-- A task with this id names the obligation.
abbrev pub Claims : String → String → Task → Type 0
Claims obligation_id task_id task =
    (task.id ≡ task_id) × (contains_string task.obligations obligation_id ≡ true)

claiming-Any :
    (obligation_id task_id : String) (tasks : List Task)
    → (contains_string (claiming_task_ids tasks obligation_id) task_id ≡ true)
      ↔ Any (Claims obligation_id task_id) tasks
unfolding claiming_task_ids
claiming-Any o t [] = (λ h. cc, λ h. absurd h)
claiming-Any o t (x ∷ tasks) =
    (λ h. ground (arith, claiming-Any o t tasks), λ h. ground (arith, claiming-Any o t tasks))

decisions-Any :
    (decisions : List Decision) (task_ids : List String) (id : String)
    → (contains_string (policy_decision_ids_for_tasks decisions task_ids) id ≡ true)
      ↔ Any (λ d. (d.decision_id ≡ id) × (contains_string task_ids d.task_id ≡ true)) decisions
unfolding policy_decision_ids_for_tasks
decisions-Any [] task_ids id = (λ h. cc, λ h. absurd h)
decisions-Any (d ∷ decisions) task_ids id = (
  λ h. ground (arith, decisions-Any decisions task_ids id),
  λ h. ground (arith, decisions-Any decisions task_ids id),
)

-- The row is about the obligation, and it cites a task exactly when a task of that id names the
-- obligation, and a decision exactly when one of that id was made for a task that names it.
pub record IsRowFor (input : Input) (o : Obligation) (row : Row) : Type 0 where
  pub same_obligation : row.obligation_id ≡ o.id
  pub same_required : row.required ≡ o.required
  pub cites_tasks :
      (task_id : String)
      → (contains_string row.task_ids task_id ≡ true) ↔ Any (Claims o.id task_id) input.tasks
  pub cites_decisions :
      (id : String)
      → (contains_string row.policy_decision_ids id ≡ true)
        ↔ Any
            (λ d. (d.decision_id ≡ id) × Any (Claims o.id d.task_id) input.tasks)
            input.policy_decisions

module _ (input : Input) where
  evaluate_obligation-IsRowFor : (o : Obligation) → IsRowFor input o (evaluate_obligation input o)
  unfolding evaluate_obligation
  evaluate_obligation-IsRowFor o =
      let tasks = claiming_task_ids input.tasks o.id in
      record {
        same_obligation = refl;
        same_required = refl;
        cites_tasks = λ t. claiming-Any o.id t input.tasks;
        cites_decisions = λ id.
            let cited = decisions-Any input.policy_decisions tasks id in
            (
              λ h.
                  Any-map _ _ input.policy_decisions
                    (λ d (same, claimed).
                      (same, (claiming-Any o.id d.task_id input.tasks).0 claimed))
                    (cited.0 h),
              λ h. cited.1 (
                  Any-map _ _ input.policy_decisions
                    (λ d (same, claimed).
                      (same, (claiming-Any o.id d.task_id input.tasks).1 claimed))
                    h),
            );
      }

  -- One row for each obligation, in their order.
  abbrev pub IsRowsFor : List Obligation → List Row → Type 0
  IsRowsFor [] [] = Unit
  IsRowsFor (o ∷ os) (row ∷ rows) = IsRowFor input o row × IsRowsFor os rows
  IsRowsFor _ _ = ⊥

  rows-IsRowsFor : (os : List Obligation) → IsRowsFor os (evaluate_rows input os)
  unfolding evaluate_rows
  rows-IsRowsFor [] = tt
  rows-IsRowsFor (o ∷ os) = (evaluate_obligation-IsRowFor o, rows-IsRowsFor os)

  -- The matrix has one row for each obligation, in order, and each row cites exactly the tasks that
  -- name its obligation and the decisions made for them.
  pub evaluate-IsRowsFor : IsRowsFor input.obligations (evaluate input).rows
  unfolding evaluate
  evaluate-IsRowsFor = rows-IsRowsFor input.obligations

-- ===== src/Contract/Validate/Sound.antt =====
-- What an accepted contract satisfies.
use ao_covenant.Base.{
  String, Bool, true, false, some, List, [], ◌∷◌, map, ◌≡◌, inl, inr, arith, All, All-map, Any, ok,
  each, each-ok, contains_string, Bool-cases,
}
use ao_covenant.Text.{Host}
use ao_covenant.Contract.Types.{Obligation, Task, Contract, contract_schema_version}
use ao_covenant.Contract.Graph.{has_cycle, ids_of, by_id}
use ao_covenant.Contract.Graph.Acyclic.{Leads, has_cycle-acyclic}
use ao_covenant.Contract.Validate.{
  validate_relative_path, validate_paths, validate_obligations, validate_tasks, validate_approvals,
  validate_dependencies, required_ids, validate, is_nil, obligation_ids, known_or,
  unknown_dependency, evaluator_unknown_obligation, missing_from_evaluator,
}
use ao_covenant.Contract.Validate.Names.{Declares}
use ao_covenant.Contract.Validate.Loops.{
  StaysInside, validate_relative_path-StaysInside, validate_paths-StaysInside, Nodup, Fresh-Nodup,
  obligations-Fresh, IsSoundTask, known_or-All, validate_tasks-TasksChecked,
  validate_approvals-ApprovalsChecked,
}

required-Any :
    (os : List Obligation) → is_nil (required_ids os) ≡ false → Any (λ o. o.required ≡ true) os
unfolding required_ids
required-Any [] h = cc
required-Any (o ∷ os) h = ground (arith, required-Any os)

required-All :
    (os : List Obligation) (listed : List String)
    → All (λ id. contains_string listed id ≡ true) (required_ids os)
    → All (λ o. o.required ≡ true → contains_string listed o.id ≡ true) os
unfolding required_ids
required-All [] listed h = tt
required-All (o ∷ os) listed h = elim (Bool-cases o.required) [
  | inl e ↦ let (first, rest) = rw e at h in (λ _. first, required-All os listed rest)
  | inr e ↦ (λ yes_required. cc, required-All os listed (rw e at h))
]

-- A contract that the rest of the program may rely on.
pub record IsWellFormed (c : Contract) : Type 0 where
  pub root_inside : StaysInside c.workspace.root
  pub reads_inside : All StaysInside c.workspace.reads
  pub writes_inside : All StaysInside c.workspace.writes
  pub obligations_distinct : Nodup (obligation_ids c.obligations)
  pub some_required : Any (λ o. o.required ≡ true) c.obligations
  pub tasks_distinct : Nodup (ids_of c.tasks)
  pub tasks_sound : All (IsSoundTask (obligation_ids c.obligations)) c.tasks
  pub tickets_distinct : Nodup (map (λ t. t.ticket_id) c.approvals)
  pub tickets_declared :
      All (λ t. Any (Declares t.task_id t.effect_type t.resource) c.tasks) c.approvals
  pub dependencies_known :
      All (λ t. All (λ d. contains_string (ids_of c.tasks) d ≡ true) t.depends_on) c.tasks
  pub acyclic :
      (id : String) → contains_string (ids_of c.tasks) id ≡ true → ¬ Leads (by_id c.tasks) id id
  pub evaluator_known :
      All
        (λ o. contains_string (obligation_ids c.obligations) o ≡ true)
        c.evaluator.required_obligations
  pub required_evaluated :
      All
        (λ o. o.required ≡ true → contains_string c.evaluator.required_obligations o.id ≡ true)
        c.obligations

module _ (host : Host) (task_schema : Task → Bool) (c : Contract) where
  validate_parts :
      validate host task_schema c ≡ ok tt
      → (c.schema_version ≡ contract_schema_version)
        × (validate_relative_path "workspace root" c.workspace.root ≡ ok tt)
        × (validate_paths "read path" c.workspace.reads ≡ ok tt)
        × (validate_paths "write path" c.workspace.writes ≡ ok tt)
        × (validate_obligations host [] c.obligations ≡ ok tt)
        × (is_nil (required_ids c.obligations) ≡ false)
        × (validate_tasks host task_schema (obligation_ids c.obligations) [] c.tasks ≡ ok tt)
        × (validate_approvals host c.tasks [] c.approvals ≡ ok tt)
        × (validate_dependencies c.tasks ≡ ok tt)
        × (has_cycle c.tasks ≡ some false)
        × (each
              (known_or evaluator_unknown_obligation (obligation_ids c.obligations))
              c.evaluator.required_obligations
            ≡ ok tt)
        × (each
              (known_or missing_from_evaluator c.evaluator.required_obligations)
              (required_ids c.obligations)
            ≡ ok tt)
  unfolding validate
  validate_parts h = ground arith

  dependencies-All :
      validate_dependencies c.tasks ≡ ok tt
      → All (λ t. All (λ d. contains_string (ids_of c.tasks) d ≡ true) t.depends_on) c.tasks
  unfolding validate_dependencies
  dependencies-All h =
      All-map _ _ c.tasks
        (λ t e. known_or-All (unknown_dependency t.id) (ids_of c.tasks) t.depends_on e)
        (each-ok _ c.tasks h)

  -- A contract that `Validate` accepts is well formed: its paths stay inside the workspace, its ids
  -- are distinct and its references known, its tasks are sound and their dependencies acyclic, each
  -- of its tickets is for a side effect that a task of that id declares, and its evaluator names
  -- every required obligation.
  pub validate-IsWellFormed : validate host task_schema c ≡ ok tt → IsWellFormed c
  validate-IsWellFormed h =
      let (
        _, root, reads, writes, obligations, required, tasks, approvals, dependencies, cycle,
        evaluator, evaluated,
      ) =
        validate_parts h in
      let checked =
        validate_tasks-TasksChecked host task_schema (obligation_ids c.obligations) [] c.tasks
          tasks in
      let tickets =
        validate_approvals-ApprovalsChecked host c.tasks [] c.approvals checked.keyed approvals in
      record {
        root_inside = validate_relative_path-StaysInside "workspace root" c.workspace.root root;
        reads_inside = validate_paths-StaysInside "read path" c.workspace.reads reads;
        writes_inside = validate_paths-StaysInside "write path" c.workspace.writes writes;
        obligations_distinct =
            Fresh-Nodup [] (obligation_ids c.obligations)
              (obligations-Fresh host [] c.obligations obligations);
        some_required = required-Any c.obligations required;
        tasks_distinct = Fresh-Nodup [] (ids_of c.tasks) checked.fresh;
        tasks_sound = checked.sound;
        tickets_distinct = Fresh-Nodup [] (map (λ t. t.ticket_id) c.approvals) tickets.fresh;
        tickets_declared = tickets.declared;
        dependencies_known = dependencies-All dependencies;
        acyclic = λ id. has_cycle-acyclic c.tasks id cycle;
        evaluator_known =
            known_or-All evaluator_unknown_obligation (obligation_ids c.obligations)
              c.evaluator.required_obligations evaluator;
        required_evaluated = required-All c.obligations c.evaluator.required_obligations (
            known_or-All missing_from_evaluator c.evaluator.required_obligations
              (required_ids c.obligations) evaluated);
      }

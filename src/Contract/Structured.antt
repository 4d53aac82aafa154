-- ===== src/Contract/Structured.antt =====
-- The contract of a structured brief: `buildStructuredContract` of internal/contract/authoring.go, and
-- `CompileBriefWithOptions` of compile.go for every brief.
pub mod Declared
pub mod Allowed
use ao_covenant.Base.{
  ℕ, zero, suc, String, ◌<>◌, Bool, true, false, not, Option, none, some, List, [], ◌∷◌, ◌++◌, eqb,
  length, ◌==◌, if◌then◌else◌, Outcome, ok, err, ◌>>=◌, ◌>>◌, fail_if,
}
use ao_covenant.Base.Dict.{Dict, insert, lookup, has}
use ao_covenant.Integers.{ℤ, pos, same_int}
use ao_covenant.Text.{Host, trim_space, decimal}
use ao_covenant.Paths.{slash_clean}
use ao_covenant.Policy.Types.{ActionRef}
use ao_covenant.Contract.Types.{Obligation, Task, Contract, contract_schema_version}
use ao_covenant.Contract.Validate.{
  Error, path_required, objective_required, validate_public_id, validate_relative_path, validate,
}
use ao_covenant.Contract.Brief.{
  TaskDraft, StructuredBrief, AuthoringDiagnostic, Message, says, cause, new_authoring_diagnostic,
  unique_strings,
}
use ao_covenant.Contract.Brief.Parse.{parse_structured_brief}
use ao_covenant.Contract.Compile.{
  file_write_actions, normalize_workspace_writes, validated_template,
}

-- Compilation fails with an error of a check or with a diagnostic of the authoring.
pub data CompileError : Type 0 where
  invalid : Error → CompileError
  authored : AuthoringDiagnostic → CompileError

unfoldable pub as_invalid {ℓ} : {A : Type ℓ} → Outcome Error A → Outcome CompileError A
as_invalid (ok value) = ok value
as_invalid (err e) = err (invalid e)

unfoldable pub as_authored {ℓ} :
    {A : Type ℓ} → Outcome AuthoringDiagnostic A → Outcome CompileError A
as_authored (ok value) = ok value
as_authored (err d) = err (authored d)

abbrev pub Check : Type 0
Check = Outcome AuthoringDiagnostic (Unit {0})

-- A check of validate.go, whose error a diagnostic holds.
abbrev diagnosed : String → ℕ → Outcome Error (Unit {0}) → Check
diagnosed code line (ok done) = ok tt
diagnosed code line (err e) = err (new_authoring_diagnostic code line (cause e))

unfoldable pub normalize_authored_paths : String → List String → Outcome Error (List String)
normalize_authored_paths label [] = ok []
normalize_authored_paths label (p ∷ raw) =
    validate_relative_path label (slash_clean p)
    >> (normalize_authored_paths label raw >>= (λ paths. ok (slash_clean p ∷ paths)))

unfoldable pub unique_normalized_paths : String → List String → Outcome Error (List String)
unique_normalized_paths label raw =
    normalize_authored_paths label raw >>= (λ paths. ok (unique_strings paths))

unfoldable pub task_writes : List TaskDraft → List String
task_writes [] = []
task_writes (task ∷ tasks) = task.writes ++ task_writes tasks

abbrev declared_writes : StructuredBrief → List String
declared_writes parsed =
    if eqb (length parsed.writes) 0 then task_writes parsed.tasks else parsed.writes

unfoldable pub structured_workspace_writes :
    List String → StructuredBrief → Outcome Error (List String)
structured_workspace_writes raw_write_overrides parsed =
    if eqb (length raw_write_overrides) 0
    then unique_normalized_paths "workspace write" (declared_writes parsed)
    else normalize_authored_paths "workspace write" raw_write_overrides

unfoldable pub file_read_actions : List String → List ActionRef
file_read_actions [] = []
file_read_actions (path ∷ reads) =
    record { type = "file.read"; resource = path } ∷ file_read_actions reads

abbrev or_scripted : String → String
or_scripted value = if value == "" then "scripted" else value

unfoldable pub structured_task : TaskDraft → List String → List String → Task
structured_task draft writes reads = record {
  id = trim_space draft.id;
  kind = or_scripted (trim_space draft.kind);
  adapter = or_scripted (trim_space draft.adapter);
  depends_on = draft.depends_on;
  obligations = draft.obligations;
  timeout_secs = if same_int draft.timeout_secs (pos 0) then pos 30 else draft.timeout_secs;
  declared_side_effects = file_write_actions writes ++ file_read_actions reads;
}

unfoldable pub structured_tasks : List TaskDraft → Outcome Error (List Task)
structured_tasks [] = ok []
structured_tasks (draft ∷ drafts) =
    normalize_authored_paths "side effect resource" draft.writes >>= (λ writes.
      normalize_authored_paths "side effect resource" draft.reads >>= (λ reads.
        structured_tasks drafts >>= (λ tasks. ok (structured_task draft writes reads ∷ tasks))))

abbrev or_fallback : ℕ → ℕ → ℕ
or_fallback fallback zero = fallback
or_fallback fallback (suc n) = suc n

unfoldable pub line_at : List ℕ → ℕ → ℕ → ℕ
line_at [] index fallback = fallback
line_at (line ∷ lines) zero fallback = or_fallback fallback line
line_at (line ∷ lines) (suc index) fallback = line_at lines index fallback

module _ (host : Host) where
  -- An id that was defined before is refused with the line of its first definition.
  abbrev first_definition : String → String → String → ℕ → Option ℕ → Check
  first_definition code what id line none = ok tt
  first_definition code what id line (some first_line) = err (
      new_authoring_diagnostic code line (
        says (
          "duplicate "
          <> what
          <> " "
          <> host.quote id
          <> "; first defined at line "
          <> decimal first_line)))

  unfoldable pub check_obligation_ids :
      Dict ℕ → List ℕ → ℕ → List Obligation → Outcome AuthoringDiagnostic (Dict ℕ)
  check_obligation_ids ids lines index [] = ok ids
  check_obligation_ids ids lines index (obligation ∷ obligations) =
      let line = line_at lines index 0 in
      let rest =
        check_obligation_ids (insert obligation.id line ids) lines (suc index) obligations in
      diagnosed "STRUCTURED_OBLIGATION_ID_INVALID" line
        (validate_public_id host "obligation id" obligation.id)
      >> first_definition "STRUCTURED_OBLIGATION_ID_DUPLICATE" "obligation id" obligation.id line
          (lookup ids obligation.id)
      >> rest

  unfoldable pub check_task_ids : Dict ℕ → List TaskDraft → Outcome AuthoringDiagnostic (Dict ℕ)
  check_task_ids ids [] = ok ids
  check_task_ids ids (task ∷ tasks) =
      let rest = check_task_ids (insert task.id task.line ids) tasks in
      diagnosed "STRUCTURED_TASK_ID_INVALID" task.line (validate_public_id host "task id" task.id)
      >> first_definition "STRUCTURED_TASK_ID_DUPLICATE" "task id" task.id task.line
          (lookup ids task.id)
      >> rest

  abbrev known : {A : Type 0} → Option A → String → ℕ → String → Check
  known none code line message = err (new_authoring_diagnostic code line (says message))
  known (some x) code line message = ok tt

  -- The loops over the dependencies and the obligations of a task.
  unfoldable pub check_known :
      Dict ℕ → String → String → TaskDraft → List ℕ → ℕ → List String → Check
  check_known ids code verb task lines index [] = ok tt
  check_known ids code verb task lines index (id ∷ names) =
      known (lookup ids id) code (line_at lines index task.line)
        ("task " <> host.quote task.id <> " " <> verb <> " " <> host.quote id)
      >> check_known ids code verb task lines (suc index) names

  unfoldable pub check_writes : Dict Bool → TaskDraft → ℕ → List String → Check
  check_writes declared task index [] = ok tt
  check_writes declared task index (write_path ∷ paths) =
      let normalized = slash_clean write_path in
      let line = line_at task.write_lines index task.line in
      diagnosed "STRUCTURED_TASK_WRITE_INVALID" line
        (validate_relative_path "side effect resource" normalized)
      >> fail_if (not (has declared normalized)) (
          new_authoring_diagnostic "STRUCTURED_TASK_WRITE_UNDECLARED" line (
            says (
              "task "
              <> host.quote task.id
              <> " writes "
              <> host.quote normalized
              <> " outside workspace writes; add it under # Writes or pass --write "
              <> normalized)))
      >> check_writes declared task (suc index) paths

  unfoldable pub write_set : Dict Bool → List String → Dict Bool
  write_set set [] = set
  write_set set (path ∷ paths) = write_set (insert path true set) paths

  unfoldable pub check_drafts : Dict ℕ → Dict ℕ → Dict Bool → List TaskDraft → Check
  check_drafts task_ids obligation_ids declared [] = ok tt
  check_drafts task_ids obligation_ids declared (task ∷ tasks) =
      check_known task_ids "STRUCTURED_TASK_DEP_UNKNOWN" "depends on unknown task" task
        task.depends_on_lines 0 task.depends_on
      >> check_known obligation_ids "STRUCTURED_TASK_OBLIGATION_UNKNOWN"
          "references unknown obligation" task task.obligation_lines 0 task.obligations
      >> check_writes declared task 0 task.writes
      >> check_drafts task_ids obligation_ids declared tasks

  unfoldable pub validate_structured_authoring : StructuredBrief → List String → Check
  validate_structured_authoring parsed workspace_writes =
      check_obligation_ids [] parsed.obligation_lines 0 parsed.obligations >>= (λ obligation_ids.
        check_task_ids [] parsed.tasks >>= (λ task_ids.
          check_drafts task_ids obligation_ids (write_set [] workspace_writes) parsed.tasks))

unfoldable pub required_obligation_ids : List Obligation → List String
required_obligation_ids [] = []
required_obligation_ids (obligation ∷ obligations) =
    let rest = required_obligation_ids obligations in
    if obligation.required then obligation.id ∷ rest else rest

abbrev objective_of : String → StructuredBrief → String
objective_of brief parsed = if parsed.objective == "" then trim_space brief else parsed.objective

unfoldable pub structured_contract :
    String → StructuredBrief → List String → List String → List Task → Contract
structured_contract brief parsed reads writes tasks = record {
  schema_version = contract_schema_version;
  objective = objective_of brief parsed;
  workspace = record { root = "."; reads = reads; writes = writes };
  obligations = parsed.obligations;
  tasks = tasks;
  policy = record { mode = "strict" };
  approvals = [];
  evaluator = record { required_obligations = required_obligation_ids parsed.obligations };
}

module _ (host : Host) (task_schema : Task → Bool) where
  unfoldable pub validated : Contract → Outcome CompileError Contract
  validated c = as_invalid (validate host task_schema c) >> ok c

  -- The rest of the construction, once the paths that are read, and then those that are written, are
  -- known.
  unfoldable pub with_tasks :
      String
      → StructuredBrief
      → List String
      → List String
      → List Task
      → Outcome CompileError Contract
  with_tasks brief parsed reads writes tasks =
      validated (structured_contract brief parsed reads writes tasks)

  unfoldable pub with_writes :
      String → StructuredBrief → List String → List String → Outcome CompileError Contract
  with_writes brief parsed reads writes =
      as_authored (validate_structured_authoring host parsed writes)
      >> (as_invalid (structured_tasks parsed.tasks) >>= with_tasks brief parsed reads writes)

  unfoldable pub with_reads :
      String → String → List String → StructuredBrief → List String → Outcome CompileError Contract
  with_reads brief source_path raw_write_overrides parsed reads =
      as_invalid (structured_workspace_writes raw_write_overrides parsed)
      >>= with_writes brief parsed (unique_strings (source_path ∷ reads))

  unfoldable pub build_structured_contract :
      String → String → List String → StructuredBrief → Outcome CompileError Contract
  build_structured_contract brief source_path raw_write_overrides parsed =
      as_invalid (normalize_authored_paths "workspace read" parsed.reads)
      >>= with_reads brief source_path raw_write_overrides parsed

  -- An empty brief is reported as a missing objective.
  unfoldable pub compile_parsed :
      String → String → List String → StructuredBrief × Bool → Outcome CompileError Contract
  compile_parsed brief source workspace_writes (structured, true) =
      build_structured_contract brief source workspace_writes structured
  compile_parsed brief source workspace_writes (structured, false) = as_invalid (
      normalize_workspace_writes workspace_writes
      >>= validated_template host task_schema brief source)

  unfoldable pub compile_brief_with_options :
      String → String → List String → Outcome CompileError Contract
  compile_brief_with_options brief source_path workspace_writes =
      let source = slash_clean source_path in
      if trim_space brief == ""
      then err (invalid objective_required)
      else if source == "."
      then err (invalid (path_required "brief path"))
      else (as_invalid (validate_relative_path "brief path" source)
          >> (as_authored (parse_structured_brief host brief)
              >>= compile_parsed brief source workspace_writes))

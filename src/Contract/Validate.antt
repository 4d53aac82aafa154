-- ===== src/Contract/Validate.antt =====
-- `Validate` and its helpers, internal/contract/validate.go. A map that is only asked for its keys
-- is the list of its keys. An error keeps what its message shows.
pub mod Names
pub mod Loops
pub mod Sound
use Prim.Native.Char.{Char, code}
use ao_covenant.Base.{
  ℕ, zero, suc, String, ◌<>◌, Bool, true, false, not, ◌&&◌, ◌||◌, Option, none, some, List, [], ◌∷◌,
  ◌++◌, map, leb, eqb, ◌==◌, if◌then◌else◌, Outcome, ok, err, ◌>>=◌, ◌>>◌, fail_if, each,
  contains_string,
}
use ao_covenant.Text.{Host, trim_space, to_lower, has_prefix, is_id_rune}
use ao_covenant.Paths.{slash_clean, escapes}
use ao_covenant.Policy.Types.{ActionRef, ApprovalTicket, approval_ticket_schema_version}
use ao_covenant.Integers.{ℤ, pos, negsuc}
use ao_covenant.Contract.Types.{Obligation, Task, Contract, contract_schema_version}
use ao_covenant.Contract.Graph.{has_cycle, ids_of}

pub data Error : Type 0 where
  unsupported_schema_version : String → Error
  objective_required : Error
  path_required : (label : String) → Error
  path_escapes : (label raw : String) → Error
  id_required : (label : String) → Error
  id_has_whitespace id_not_lowercase id_reserved : (label raw : String) → Error
  id_invalid_character : (label raw : String) → Char → Error
  duplicate_obligation : String → Error
  no_required_obligation : Error
  duplicate_task : String → Error
  unsupported_task_kind : (kind task : String) → Error
  adapter_required timeout_not_positive task_schema_invalid : (task : String) → Error
  unknown_obligation : (task obligation : String) → Error
  unsupported_effect_type : (effect owner : String) → Error
  no_task : Error
  unsupported_ticket_version : String → Error
  duplicate_ticket : String → Error
  ticket_unknown_task : (ticket task : String) → Error
  ticket_reason_required ticket_expiry_invalid ticket_undeclared : (ticket : String) → Error
  unknown_dependency : (task dependency : String) → Error
  cyclic_tasks out_of_fuel : Error
  evaluator_unknown_obligation missing_from_evaluator : String → Error

abbrev pub Check : Type 0
Check = Outcome Error (Unit {0})

unfoldable pub allowed_task_kind : String → Bool
allowed_task_kind kind =
    kind == "scripted"
    || kind == "shell"
    || kind == "agent"
    || kind == "verify"
    || kind == "review"
    || kind == "evaluate"

unfoldable pub allowed_side_effect_type : String → Bool
allowed_side_effect_type type =
    type == "file.write"
    || type == "file.read"
    || type == "process.spawn"
    || type == "network.request"
    || type == "claim.publish"

-- `com1` to `com9` and `lpt1` to `lpt9`.
abbrev numbered_device : String → Bool
numbered_device (String.◌∷◌ a (String.◌∷◌ b (String.◌∷◌ c (String.◌∷◌ d String.[])))) =
    leb 49 (code d) && leb (code d) 57
numbered_device _ = false

unfoldable pub is_reserved_windows_name : String → Bool
is_reserved_windows_name id =
    (id == "con" || id == "prn" || id == "aux" || id == "nul")
    || (has_prefix id "com" || has_prefix id "lpt") && numbered_device id

-- The loop over the runes of an id.
unfoldable pub first_invalid : String → Option Char
first_invalid String.[] = none
first_invalid (String.◌∷◌ c s) = let rest = first_invalid s in if is_id_rune c then rest else some c

abbrev invalid_character : String → String → Option Char → Check
invalid_character label raw none = ok tt
invalid_character label raw (some c) = err (id_invalid_character label raw c)

unfoldable pub validate_relative_path : String → String → Check
validate_relative_path label raw =
    if trim_space raw == ""
    then err (path_required label)
    else if escapes (slash_clean raw)
    then err (path_escapes label raw)
    else ok tt

unfoldable pub validate_paths : String → List String → Check
validate_paths label = each (validate_relative_path label)

abbrev pub is_positive : ℤ → Bool
is_positive (pos zero) = false
is_positive (pos (suc n)) = true
is_positive (negsuc n) = false

-- `sideEffectKey`
abbrev pub nul : String
nul = "\0"

unfoldable pub side_effect_key : String → String → String → String
side_effect_key task_id effect_type resource =
    task_id <> (nul <> (effect_type <> (nul <> slash_clean resource)))

-- The keys that validation collects from the tasks' declared side effects.
abbrev pub effect_keys : String → List ActionRef → List String
effect_keys task_id [] = []
effect_keys task_id (action ∷ actions) =
    side_effect_key task_id action.type action.resource ∷ effect_keys task_id actions

unfoldable pub declared_effects : List Task → List String
declared_effects [] = []
declared_effects (task ∷ tasks) =
    effect_keys task.id task.declared_side_effects ++ declared_effects tasks

-- `if !known[id] { return error }`
unfoldable pub known_or : (String → Error) → List String → String → Check
known_or error known id = fail_if (not (contains_string known id)) (error id)

unfoldable pub validate_effect : Task → ActionRef → Check
validate_effect task action = do
  fail_if (not (allowed_side_effect_type action.type)) (unsupported_effect_type action.type task.id)
  validate_relative_path "side effect resource" action.resource

abbrev pub obligation_ids : List Obligation → List String
obligation_ids = map (λ o. o.id)

unfoldable pub required_ids : List Obligation → List String
required_ids [] = []
required_ids (o ∷ obligations) =
    let rest = required_ids obligations in if o.required then o.id ∷ rest else rest

unfoldable pub validate_dependencies : List Task → Check
validate_dependencies tasks =
    each (λ task. each (known_or (unknown_dependency task.id) (ids_of tasks)) task.depends_on) tasks

-- `out_of_fuel` stands for a search that has no answer.
abbrev pub cycle_check : Option Bool → Check
cycle_check none = err out_of_fuel
cycle_check (some true) = err cyclic_tasks
cycle_check (some false) = ok tt

abbrev pub is_nil : List String → Bool
is_nil [] = true
is_nil (x ∷ xs) = false

module _ (host : Host) where
  unfoldable pub validate_public_id : String → String → Check
  validate_public_id label raw =
      let id = trim_space raw in
      if id == ""
      then err (id_required label)
      else if not (id == raw)
      then err (id_has_whitespace label raw)
      else if not (id == to_lower host id)
      then err (id_not_lowercase label raw)
      else if is_reserved_windows_name id
      then err (id_reserved label raw)
      else invalid_character label raw (first_invalid id)

  -- The loop over the obligations, with the ids seen so far.
  unfoldable pub validate_obligations : List String → List Obligation → Check
  validate_obligations seen [] = ok tt
  validate_obligations seen (o ∷ obligations) = do
    validate_public_id "obligation id" o.id
    fail_if (contains_string seen o.id) (duplicate_obligation o.id)
    validate_obligations (o.id ∷ seen) obligations

  abbrev expiry_fails : ApprovalTicket → Bool
  expiry_fails ticket = elim (host.parse_time ticket.expires_at) [ none ↦ true | some at ↦ false ]

  -- The body of the loop over the tickets, behind the test for a duplicate.
  unfoldable pub validate_approval : List Task → ApprovalTicket → Check
  validate_approval tasks ticket = do
    fail_if (not (contains_string (ids_of tasks) ticket.task_id))
        (ticket_unknown_task ticket.ticket_id ticket.task_id)
    fail_if (not (allowed_side_effect_type ticket.effect_type))
        (unsupported_effect_type ticket.effect_type ticket.ticket_id)
    validate_relative_path "approval ticket resource" ticket.resource
    fail_if (trim_space ticket.reason == "") (ticket_reason_required ticket.ticket_id)
    fail_if (not (trim_space ticket.expires_at == "") && expiry_fails ticket)
        (ticket_expiry_invalid ticket.ticket_id)
    fail_if
        (not (
          contains_string (declared_effects tasks)
            (side_effect_key ticket.task_id ticket.effect_type ticket.resource)))
        (ticket_undeclared ticket.ticket_id)

  unfoldable pub validate_approvals : List Task → List String → List ApprovalTicket → Check
  validate_approvals tasks seen [] = ok tt
  validate_approvals tasks seen (ticket ∷ approvals) = do
    fail_if (not (ticket.schema_version == approval_ticket_schema_version))
        (unsupported_ticket_version ticket.schema_version)
    validate_public_id "approval ticket id" ticket.ticket_id
    fail_if (contains_string seen ticket.ticket_id) (duplicate_ticket ticket.ticket_id)
    validate_approval tasks ticket
    validate_approvals tasks (ticket.ticket_id ∷ seen) approvals

-- `schema.ValidateValue(schema.TaskSchemaID, task)` is the argument `task_schema`.
module _ (task_schema : Task → Bool) where
  -- The body of the loop over the tasks, behind the test for a duplicate.
  unfoldable pub validate_task : List String → Task → Check
  validate_task obligation_ids task = do
    fail_if (not (allowed_task_kind task.kind)) (unsupported_task_kind task.kind task.id)
    fail_if (trim_space task.adapter == "") (adapter_required task.id)
    fail_if (not (is_positive task.timeout_secs)) (timeout_not_positive task.id)
    each (known_or (unknown_obligation task.id) obligation_ids) task.obligations
    each (validate_effect task) task.declared_side_effects
    fail_if (not (task_schema task)) (task_schema_invalid task.id)

module _ (host : Host) (task_schema : Task → Bool) where
  unfoldable pub validate_tasks : List String → List String → List Task → Check
  validate_tasks obligation_ids seen [] = ok tt
  validate_tasks obligation_ids seen (task ∷ tasks) = do
    validate_public_id host "task id" task.id
    fail_if (contains_string seen task.id) (duplicate_task task.id)
    validate_task task_schema obligation_ids task
    validate_tasks obligation_ids (task.id ∷ seen) tasks

  unfoldable pub validate : Contract → Check
  validate c =
      let known = obligation_ids c.obligations in
      let evaluated = c.evaluator.required_obligations in
      do
        fail_if (not (c.schema_version == contract_schema_version))
            (unsupported_schema_version c.schema_version)
        fail_if (trim_space c.objective == "") objective_required
        validate_relative_path "workspace root" c.workspace.root
        validate_paths "read path" c.workspace.reads
        validate_paths "write path" c.workspace.writes
        validate_obligations host [] c.obligations
        fail_if (is_nil (required_ids c.obligations)) no_required_obligation
        validate_tasks known [] c.tasks
        fail_if (is_nil (ids_of c.tasks)) no_task
        validate_approvals host c.tasks [] c.approvals
        validate_dependencies c.tasks
        cycle_check (has_cycle c.tasks)
        each (known_or evaluator_unknown_obligation known) evaluated
        each (known_or missing_from_evaluator evaluated) (required_ids c.obligations)

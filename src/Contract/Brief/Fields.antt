-- ===== src/Contract/Brief/Fields.antt =====
-- The lines of an obligation and of a task, internal/contract/authoring.go.
use ao_covenant.Base.{
  ℕ, String, ◌<>◌, Bool, ◌||◌, Option, none, some, List, [], ◌∷◌, ◌++◌, ◌==◌, if◌then◌else◌,
  Outcome, ok, ◌>>=◌,
}
use ao_covenant.Integers.{ℤ}
use ao_covenant.Text.{Host, to_lower}
use ao_covenant.Contract.Types.{Obligation}
use ao_covenant.Contract.Brief.{
  TaskDraft, AuthoringDiagnostic, refuse, parse_bullet, parse_key_value, parse_bool, atoi,
  split_inline_list,
}

abbrev pub required_or : Obligation → ℕ → Option Bool → Outcome AuthoringDiagnostic Obligation
required_or obligation line_number none =
    refuse "STRUCTURED_OBLIGATION_REQUIRED_INVALID" line_number
      "obligation required must be true or false"
required_or obligation line_number (some required) = ok (record obligation { required = required })

unfoldable pub obligation_field :
    Host → Obligation → ℕ → Option (String × String) → Outcome AuthoringDiagnostic Obligation
obligation_field host obligation line_number none =
    refuse "STRUCTURED_OBLIGATION_LINE_INVALID" line_number "obligation line must be key: value"
obligation_field host obligation line_number (some (key, value)) =
    if key == "required"
    then required_or obligation line_number (parse_bool (to_lower host value))
    else if key == "text"
    then ok (record obligation { text = value })
    else refuse "STRUCTURED_OBLIGATION_FIELD_UNKNOWN" line_number
        ("unsupported obligation field " <> host.quote key)

unfoldable pub parse_obligation_line :
    Host → Obligation → String → ℕ → Outcome AuthoringDiagnostic Obligation
parse_obligation_line host obligation line line_number =
    obligation_field host obligation line_number (parse_key_value host line)

unfoldable pub append_task_list_value :
    Host → TaskDraft → String → String → ℕ → Outcome AuthoringDiagnostic TaskDraft
append_task_list_value host task field value line_number =
    if field == "depends_on"
    then ok (record task {
      depends_on = task.depends_on ++ value ∷ [];
      depends_on_lines = task.depends_on_lines ++ line_number ∷ [];
    })
    else if field == "obligations"
    then ok (record task {
      obligations = task.obligations ++ value ∷ [];
      obligation_lines = task.obligation_lines ++ line_number ∷ [];
    })
    else if field == "writes"
    then ok (record task {
      writes = task.writes ++ value ∷ [];
      write_lines = task.write_lines ++ line_number ∷ [];
    })
    else if field == "reads"
    then ok (record task {
      reads = task.reads ++ value ∷ [];
      read_lines = task.read_lines ++ line_number ∷ [];
    })
    else refuse "STRUCTURED_TASK_LIST_FIELD_UNKNOWN" line_number
        ("unsupported task list field " <> host.quote field)

-- The loop over the items of an inline list.
unfoldable pub append_all :
    Host → TaskDraft → String → List String → ℕ → Outcome AuthoringDiagnostic TaskDraft
append_all host task field [] line_number = ok task
append_all host task field (value ∷ values) line_number =
    append_task_list_value host task field value line_number
    >>= (λ next. append_all host next field values line_number)

abbrev pub timeout_or : TaskDraft → ℕ → Option ℤ → Outcome AuthoringDiagnostic (TaskDraft × String)
timeout_or task line_number none =
    refuse "STRUCTURED_TASK_TIMEOUT_INVALID" line_number "timeout_seconds must be an integer"
timeout_or task line_number (some timeout_secs) =
    ok (record task { timeout_secs = timeout_secs }, "")

-- A line that is no bullet. The result holds the list field that is open after it.
unfoldable pub task_field :
    Host
    → TaskDraft
    → ℕ
    → Option (String × String)
    → Outcome AuthoringDiagnostic (TaskDraft × String)
task_field host task line_number none =
    refuse "STRUCTURED_TASK_LINE_INVALID" line_number "task line must be key: value or list bullet"
task_field host task line_number (some (key, value)) =
    if key == "kind"
    then ok (record task { kind = value }, "")
    else if key == "adapter"
    then ok (record task { adapter = value }, "")
    else if key == "timeout_seconds"
    then timeout_or task line_number (atoi value)
    else if key == "depends_on" || key == "obligations" || key == "writes" || key == "reads"
    then append_all host task key (if value == "" then [] else split_inline_list value) line_number
      >>= (λ next. ok (next, key))
    else refuse "STRUCTURED_TASK_FIELD_UNKNOWN" line_number (
        "unsupported task field "
        <> host.quote key
        <> "; expected kind, adapter, timeout_seconds, depends_on, obligations, writes, or reads")

unfoldable pub task_bullet :
    Host → TaskDraft → String → String → ℕ → Outcome AuthoringDiagnostic (TaskDraft × String)
task_bullet host task list_field value line_number =
    if list_field == ""
    then refuse "STRUCTURED_TASK_LIST_FIELD_REQUIRED" line_number
        "task bullet appears before a list field"
    else append_task_list_value host task list_field value line_number
      >>= (λ next. ok (next, list_field))

unfoldable pub task_line :
    Host
    → TaskDraft
    → String
    → String
    → ℕ
    → Option String
    → Outcome AuthoringDiagnostic (TaskDraft × String)
task_line host task list_field line line_number (some value) =
    task_bullet host task list_field value line_number
task_line host task list_field line line_number none =
    task_field host task line_number (parse_key_value host line)

unfoldable pub parse_task_line :
    Host → TaskDraft → String → String → ℕ → Outcome AuthoringDiagnostic (TaskDraft × String)
parse_task_line host task list_field line line_number =
    task_line host task list_field line line_number (parse_bullet line)

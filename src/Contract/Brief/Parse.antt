-- ===== src/Contract/Brief/Parse.antt =====
-- `parseStructuredBrief` of internal/contract/authoring.go: the variables of its loop are a state that
-- each line takes and returns.
pub mod Located
pub mod Written
pub mod Content
pub mod Placed
use ao_covenant.Base.{
  ℕ, suc, ◌+◌, String, ◌<>◌, Bool, true, false, not, ◌&&◌, Option, none, some, List, [], ◌∷◌, ◌++◌,
  ◌==◌, eqb, length, if◌then◌else◌, Outcome, ok, err, ◌>>=◌,
}
use ao_covenant.Integers.{pos}
use ao_covenant.Text.{Host, trim_space, to_lower, has_prefix}
use ao_covenant.Contract.Types.{Obligation}
use ao_covenant.Contract.Brief.{
  TaskDraft, StructuredBrief, AuthoringDiagnostic, refuse, parse_bullet, normalize_heading,
  drop_runes, join_lines, split_at, unix_lines,
}
use ao_covenant.Contract.Brief.Fields.{parse_obligation_line, parse_task_line}

pub record ParserState : Type 0 where
  pub reads : List String
  pub writes : List String
  pub obligations : List Obligation
  pub obligation_lines : List ℕ
  pub tasks : List TaskDraft
  pub section : String
  pub list_field : String
  pub objective_lines : List String
  pub current_task : Option TaskDraft
  pub current_obligation : Option Obligation
  pub current_obligation_line : ℕ

abbrev pub initial : ParserState
initial = record {
  reads = [];
  writes = [];
  obligations = [];
  obligation_lines = [];
  tasks = [];
  section = "";
  list_field = "";
  objective_lines = [];
  current_task = none;
  current_obligation = none;
  current_obligation_line = 0;
}

abbrev pub finished_task : ParserState → Option TaskDraft → ParserState
finished_task s none = s
finished_task s (some task) = record s { tasks = s.tasks ++ task ∷ []; current_task = none }

unfoldable pub finish_task : ParserState → ParserState
finish_task s = finished_task s s.current_task

abbrev pub finished_obligation : ParserState → Option Obligation → ParserState
finished_obligation s none = s
finished_obligation s (some obligation) = record s {
  obligations = s.obligations ++ obligation ∷ [];
  obligation_lines = s.obligation_lines ++ s.current_obligation_line ∷ [];
  current_obligation = none;
  current_obligation_line = 0;
}

unfoldable pub finish_obligation : ParserState → ParserState
finish_obligation s = finished_obligation s s.current_obligation

abbrev pub Step : Type 0
Step = Outcome AuthoringDiagnostic ParserState

abbrev new_task : String → ℕ → TaskDraft
new_task id line = record {
  id = id;
  line = line;
  kind = "scripted";
  adapter = "scripted";
  depends_on = [];
  depends_on_lines = [];
  obligations = [];
  obligation_lines = [];
  writes = [];
  write_lines = [];
  reads = [];
  read_lines = [];
  timeout_secs = pos 30;
}

-- `# ` opens a section.
unfoldable pub open_section : Host → ParserState → String → ParserState
open_section host s line =
    let done = finish_obligation (finish_task s) in
    record done {
      section = normalize_heading host (trim_space (drop_runes 2 line));
      list_field = "";
    }

unfoldable pub open_task : ParserState → String → ℕ → Step
open_task s id line_number =
    let done = finish_task s in
    if id == ""
    then refuse "STRUCTURED_TASK_ID_MISSING" line_number "task heading is missing an id"
    else ok (record done { current_task = some (new_task id line_number); list_field = "" })

unfoldable pub open_obligation : ParserState → String → ℕ → Step
open_obligation s id line_number =
    let done = finish_obligation s in
    if id == ""
    then refuse "STRUCTURED_OBLIGATION_ID_MISSING" line_number "obligation heading is missing an id"
    else ok (record done {
      current_obligation = some (record { id = id; text = ""; required = true });
      current_obligation_line = line_number;
      list_field = "";
    })

-- `## ` opens a task or an obligation.
unfoldable pub parse_heading : Host → ParserState → String → ℕ → Step
parse_heading host s heading line_number =
    if s.section == "tasks" && has_prefix (to_lower host heading) "task:"
    then open_task s (trim_space (drop_runes 5 heading)) line_number
    else if s.section == "obligations" && has_prefix (to_lower host heading) "obligation:"
    then open_obligation s (trim_space (drop_runes 11 heading)) line_number
    else refuse "STRUCTURED_HEADING_UNSUPPORTED" line_number
        ("unsupported heading " <> host.quote heading)

unfoldable pub read_bullet : ParserState → Option String → ℕ → Step
read_bullet s none line_number =
    refuse "STRUCTURED_READ_BULLET_REQUIRED" line_number "read must be a bullet"
read_bullet s (some value) line_number = ok (record s { reads = s.reads ++ value ∷ [] })

unfoldable pub write_bullet : ParserState → Option String → ℕ → Step
write_bullet s none line_number =
    refuse "STRUCTURED_WRITE_BULLET_REQUIRED" line_number "write must be a bullet"
write_bullet s (some value) line_number = ok (record s { writes = s.writes ++ value ∷ [] })

unfoldable pub in_obligation : Host → ParserState → Option Obligation → String → ℕ → Step
in_obligation host s none line line_number =
    refuse "STRUCTURED_OBLIGATION_HEADING_REQUIRED" line_number
      "obligation field appears before an obligation heading"
in_obligation host s (some obligation) line line_number =
    parse_obligation_line host obligation line line_number
    >>= (λ next. ok (record s { current_obligation = some next }))

unfoldable pub in_task : Host → ParserState → Option TaskDraft → String → ℕ → Step
in_task host s none line line_number =
    refuse "STRUCTURED_TASK_HEADING_REQUIRED" line_number "task field appears before a task heading"
in_task host s (some task) line line_number =
    parse_task_line host task s.list_field line line_number
    >>= (λ (next, list_field). ok (record s { current_task = some next; list_field = list_field }))

-- The switch on the section.
unfoldable pub parse_content : Host → ParserState → String → ℕ → Step
parse_content host s line line_number =
    if s.section == "objective"
    then ok (record s { objective_lines = s.objective_lines ++ line ∷ [] })
    else if s.section == "reads"
    then read_bullet s (parse_bullet line) line_number
    else if s.section == "writes"
    then write_bullet s (parse_bullet line) line_number
    else if s.section == "obligations"
    then in_obligation host s s.current_obligation line line_number
    else if s.section == "tasks"
    then in_task host s s.current_task line line_number
    else ok s

-- One round of the loop. Lines are counted from 1.
unfoldable pub parse_line : Host → ParserState → String → ℕ → Step
parse_line host s raw_line line_number =
    let line = trim_space raw_line in
    if line == ""
    then ok s
    else if has_prefix line "# "
    then ok (open_section host s line)
    else if has_prefix line "## "
    then parse_heading host s (trim_space (drop_runes 3 line)) line_number
    else parse_content host s line line_number

unfoldable pub parse_lines : Host → ParserState → List String → ℕ → Step
parse_lines host s [] line_number = ok s
parse_lines host s (line ∷ lines) line_number =
    parse_line host s line line_number >>= (λ next. parse_lines host next lines (suc line_number))

abbrev pub lines_of : String → List String
lines_of brief = split_at 10 (unix_lines brief)

-- The brief that a state has gathered once its last task and obligation are finished.
unfoldable pub parsed_brief : ParserState → StructuredBrief
parsed_brief s =
    let done = finish_obligation (finish_task s) in
    record {
      objective = trim_space (join_lines done.objective_lines);
      reads = done.reads;
      writes = done.writes;
      obligations = done.obligations;
      obligation_lines = done.obligation_lines;
      tasks = done.tasks;
    }

-- With the brief, whether it has a task.
unfoldable pub parse_structured_brief :
    Host → String → Outcome AuthoringDiagnostic (StructuredBrief × Bool)
parse_structured_brief host brief =
    parse_lines host initial (lines_of brief) 1
    >>= (λ s. ok (parsed_brief s, not (eqb (length (parsed_brief s).tasks) 0)))

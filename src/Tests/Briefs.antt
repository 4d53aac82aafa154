-- ===== src/Tests/Briefs.antt =====
-- A structured brief, and one that is refused.
use ao_covenant.Base.{◌≤◌, String, true, [], ◌∷◌, ◌≡◌, refl, All, length, ok, err, string_dec, each}
use ao_covenant.Base.Dict.{has}
use ao_covenant.Integers.{pos}
use ao_covenant.Text.{trim_space, map_runes, has_prefix, is_id_rune}
use ao_covenant.Paths.{slash_clean, escapes, has_windows_drive_prefix}
use ao_covenant.Contract.Types.{Contract, contract_schema_version}
use ao_covenant.Contract.Graph.{has_cycle}
use ao_covenant.Contract.Validate
use ao_covenant.Contract.Validate.{validate}
use ao_covenant.Contract.Validate.Sound.{IsWellFormed}
use ao_covenant.Contract.Brief
use ao_covenant.Contract.Brief.Fields
use ao_covenant.Contract.Brief.Parse
use ao_covenant.Contract.Structured
use ao_covenant.Contract.Compile
use ao_covenant.Contract.Brief.{
  TaskDraft, StructuredBrief, AuthoringDiagnostic, new_authoring_diagnostic, says,
}
use ao_covenant.Contract.Brief.Parse.{lines_of, parse_structured_brief}
use ao_covenant.Contract.Brief.Parse.Located.{parse-on_line}
use ao_covenant.Contract.Brief.Parse.Written.{Zipped, IsWritten, ObligationHeading}
use ao_covenant.Contract.Brief.Parse.Placed.{parse-IsWritten}
use ao_covenant.Contract.Structured.{compile_brief_with_options, structured_contract}
use ao_covenant.Contract.Structured.Allowed.{WritesAllowed, compile-WritesAllowed}
use ao_covenant.Tests.Samples.{host}

abbrev brief : String
brief =
    "# objective\nCreate a report.\n# writes\n- ./out/report.md\n# obligations\n## obligation: obl_report\ntext: The report exists.\n# tasks\n## task: report\nobligations: obl_report\nwrites:\n- out/report.md\ntimeout_seconds: 60\n"

abbrev structured : StructuredBrief
structured = record {
  objective = "Create a report.";
  reads = [];
  writes = "./out/report.md" ∷ [];
  obligations = record { id = "obl_report"; text = "The report exists."; required = true } ∷ [];
  obligation_lines = 6 ∷ [];
  tasks =
      record {
        id = "report";
        line = 9;
        kind = "scripted";
        adapter = "scripted";
        depends_on = [];
        depends_on_lines = [];
        obligations = "obl_report" ∷ [];
        obligation_lines = 10 ∷ [];
        writes = "out/report.md" ∷ [];
        write_lines = 12 ∷ [];
        reads = [];
        read_lines = [];
        timeout_secs = pos 60;
      }
      ∷ [];
}

parsed : parse_structured_brief host brief ≡ ok (structured, true)
unfolding Parse.parse_structured_brief Parse.parse_lines Parse.parse_line Parse.parse_content
    Parse.write_bullet Parse.read_bullet Parse.in_task Parse.in_obligation Parse.parse_heading
    Parse.open_task Parse.open_obligation Parse.open_section Parse.finish_task
    Parse.finish_obligation Parse.parsed_brief Fields.parse_task_line Fields.task_line
    Fields.task_bullet Fields.task_field Fields.append_all Fields.append_task_list_value
    Fields.parse_obligation_line Fields.obligation_field Brief.split_at Brief.cut_colon
    Brief.unix_lines Brief.drop_runes Brief.join_lines Brief.normalize_heading Brief.parse_bullet
    Brief.parse_key_value Brief.trimmed_parts Brief.split_inline_list Brief.parse_bool
    Brief.read_digits Brief.atoi trim_space map_runes has_prefix string_dec
parsed = refl

parse-IsWritten_example :
    All (IsWritten host (lines_of brief)) structured.tasks
    × Zipped
        (ObligationHeading host (lines_of brief))
        structured.obligation_lines
        structured.obligations
parse-IsWritten_example = parse-IsWritten host brief structured true parsed

abbrev refusal : AuthoringDiagnostic
refusal =
    new_authoring_diagnostic "STRUCTURED_TASK_LINE_INVALID" 3
      (says "task line must be key: value or list bullet")

refused : parse_structured_brief host "# tasks\n## task: report\nnope\n" ≡ err refusal
unfolding Parse.parse_structured_brief Parse.parse_lines Parse.parse_line Parse.parse_content
    Parse.write_bullet Parse.read_bullet Parse.in_task Parse.in_obligation Parse.parse_heading
    Parse.open_task Parse.open_obligation Parse.open_section Parse.finish_task
    Parse.finish_obligation Parse.parsed_brief Fields.parse_task_line Fields.task_line
    Fields.task_bullet Fields.task_field Fields.append_all Fields.append_task_list_value
    Fields.parse_obligation_line Fields.obligation_field Brief.split_at Brief.cut_colon
    Brief.unix_lines Brief.drop_runes Brief.join_lines Brief.normalize_heading Brief.parse_bullet
    Brief.parse_key_value Brief.trimmed_parts Brief.split_inline_list Brief.parse_bool
    Brief.read_digits Brief.atoi trim_space map_runes has_prefix string_dec
refused = refl

parse-on_line_example : (1 ≤ 3) × (3 ≤ length (lines_of "# tasks\n## task: report\nnope\n"))
parse-on_line_example = parse-on_line host "# tasks\n## task: report\nnope\n" refusal refused

abbrev report : Contract
report = record {
  schema_version = contract_schema_version;
  objective = "Create a report.";
  workspace = record { root = "."; reads = "plan/brief.md" ∷ []; writes = "out/report.md" ∷ [] };
  obligations = structured.obligations;
  tasks =
      record {
        id = "report";
        kind = "scripted";
        adapter = "scripted";
        depends_on = [];
        obligations = "obl_report" ∷ [];
        timeout_secs = pos 60;
        declared_side_effects = record { type = "file.write"; resource = "out/report.md" } ∷ [];
      }
      ∷ [];
  policy = record { mode = "strict" };
  approvals = [];
  evaluator = record { required_obligations = "obl_report" ∷ [] };
}

compiled : compile_brief_with_options host (λ t. true) brief "plan/brief.md" [] ≡ ok report
unfolding Structured.as_invalid Structured.as_authored Structured.normalize_authored_paths
    Structured.unique_normalized_paths Structured.task_writes Structured.structured_workspace_writes
    Structured.structured_task Structured.structured_tasks Structured.line_at
    Structured.check_obligation_ids Structured.check_task_ids Structured.check_known
    Structured.check_writes Structured.write_set Structured.check_drafts
    Structured.validate_structured_authoring Structured.required_obligation_ids
    Structured.structured_contract Structured.validated Structured.with_tasks Structured.with_writes
    Structured.with_reads Structured.build_structured_contract Structured.compile_parsed
    compile_brief_with_options Brief.unique_after Compile.file_write_actions
    Structured.file_read_actions Parse.parse_structured_brief Parse.parse_lines Parse.parse_line
    Parse.parse_content Parse.write_bullet Parse.read_bullet Parse.in_task Parse.in_obligation
    Parse.parse_heading Parse.open_task Parse.open_obligation Parse.open_section Parse.finish_task
    Parse.finish_obligation Parse.parsed_brief Fields.parse_task_line Fields.task_line
    Fields.task_bullet Fields.task_field Fields.append_all Fields.append_task_list_value
    Fields.parse_obligation_line Fields.obligation_field Brief.split_at Brief.cut_colon
    Brief.unix_lines Brief.drop_runes Brief.join_lines Brief.normalize_heading Brief.parse_bullet
    Brief.parse_key_value Brief.trimmed_parts Brief.split_inline_list Brief.parse_bool
    Brief.read_digits Brief.atoi trim_space map_runes has_prefix string_dec validate
    Validate.validate_relative_path Validate.validate_paths Validate.validate_obligations
    Validate.validate_public_id Validate.validate_tasks Validate.validate_task
    Validate.validate_effect Validate.validate_approvals Validate.validate_approval
    Validate.validate_dependencies Validate.required_ids Validate.known_or Validate.first_invalid
    Validate.declared_effects Validate.side_effect_key Validate.allowed_task_kind
    Validate.allowed_side_effect_type Validate.is_reserved_windows_name slash_clean escapes
    has_windows_drive_prefix is_id_rune has_cycle has each
compiled = refl

compile-WritesAllowed_example :
    IsWellFormed report × All (WritesAllowed host [] 5 report) report.tasks
compile-WritesAllowed_example =
    compile-WritesAllowed host (λ t. true) brief "plan/brief.md" [] report compiled [] 5

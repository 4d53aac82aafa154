-- ===== src/Contract/Compile.antt =====
-- The compilation of a brief that has no structure of its own, in internal/contract/compile.go: what
-- `CompileBriefWithOptions` does once `parseStructuredBrief` has found none.
pub mod Allowed
use ao_covenant.Base.{
  String, true, Bool, List, [], ◌∷◌, map, Outcome, ok, err, ◌>>=◌, ◌>>◌, ◌==◌, if◌then◌else◌,
}
use ao_covenant.Text.{Host, trim_space}
use ao_covenant.Paths.{slash_clean}
use ao_covenant.Policy.Types.{ActionRef}
use ao_covenant.Integers.{ℤ, pos, negsuc}
use ao_covenant.Contract.Types.{Obligation, Task, Contract, contract_schema_version}
use ao_covenant.Contract.Validate.{
  Error, path_required, objective_required, validate_relative_path, validate,
}

abbrev pub default_workspace_writes : List String
default_workspace_writes = "demo-output/report.txt" ∷ []

-- The loop of `normalizeWorkspaceWrites`.
unfoldable pub normalize_each : List String → Outcome Error (List String)
normalize_each [] = ok []
normalize_each (raw ∷ writes) =
    validate_relative_path "workspace write" (slash_clean raw)
    >> (normalize_each writes >>= λ rest. ok (slash_clean raw ∷ rest))

unfoldable pub normalize_workspace_writes : List String → Outcome Error (List String)
unfolding normalize_each
normalize_workspace_writes [] = ok default_workspace_writes
normalize_workspace_writes (raw ∷ writes) = normalize_each (raw ∷ writes)

unfoldable pub file_write_actions : List String → List ActionRef
file_write_actions [] = []
file_write_actions (path ∷ writes) =
    record { type = "file.write"; resource = path } ∷ file_write_actions writes

abbrev required : String → String → Obligation
required id text = record { id = id; text = text; required = true }

unfoldable pub change_task : List String → Task
unfolding file_write_actions
change_task writes = record {
  id = "scripted_change";
  kind = "scripted";
  adapter = "scripted";
  depends_on = [];
  obligations = "obl_requested_file" ∷ [];
  timeout_secs = pos 30;
  declared_side_effects = file_write_actions writes;
}

-- The contract of the template.
unfoldable pub template_contract : String → String → List String → Contract
unfolding change_task
template_contract brief source_path writes = record {
  schema_version = contract_schema_version;
  objective = trim_space brief;
  workspace = record { root = "."; reads = source_path ∷ []; writes = writes };
  obligations =
      required "obl_requested_file" "The requested file is created."
      ∷ required "obl_verify_passes" "The verifier passes."
      ∷ required "obl_review_clear" "The reviewer has no unresolved high concern."
      ∷ [];
  tasks =
      change_task writes
      ∷ record {
        id = "verify_change";
        kind = "verify";
        adapter = "scripted";
        depends_on = "scripted_change" ∷ [];
        obligations = "obl_verify_passes" ∷ [];
        timeout_secs = pos 30;
        declared_side_effects = [];
      }
      ∷ record {
        id = "review_change";
        kind = "review";
        adapter = "scripted";
        depends_on = "verify_change" ∷ [];
        obligations = "obl_review_clear" ∷ [];
        timeout_secs = pos 30;
        declared_side_effects = [];
      }
      ∷ [];
  policy = record { mode = "strict" };
  approvals = [];
  evaluator = record {
    required_obligations = "obl_requested_file" ∷ "obl_verify_passes" ∷ "obl_review_clear" ∷ [];
  };
}

module _ (host : Host) (task_schema : Task → Bool) where
  abbrev pub validated_template : String → String → List String → Outcome Error Contract
  validated_template brief source writes =
      validate host task_schema (template_contract brief source writes)
      >> ok (template_contract brief source writes)

  -- An empty brief is reported as a missing objective.
  unfoldable pub compile_unstructured : String → String → List String → Outcome Error Contract
  unfolding template_contract normalize_workspace_writes
  compile_unstructured brief raw_source raw_writes =
      let source = slash_clean raw_source in
      if trim_space brief == ""
      then err objective_required
      else if source == "."
      then err (path_required "brief path")
      else (validate_relative_path "brief path" source
          >> (normalize_workspace_writes raw_writes >>= validated_template brief source))

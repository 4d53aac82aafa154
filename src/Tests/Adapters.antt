-- ===== src/Tests/Adapters.antt =====
-- The task loop with the default adapter, on a host that notes which files are written.
use ao_covenant.Base.{
  String, ◌<>◌, true, false, none, List, [], ◌∷◌, ◌≡◌, refl, ok, All, string_dec, each,
}
use ao_covenant.Base.Dict.{has, lookup}
use ao_covenant.Text.{
  trim_space, is_id_rune, map_runes, contains, has_prefix, to_slash, is_space, decimal, decimal6,
}
use ao_covenant.Paths.{slash_clean, escapes, has_windows_drive_prefix}
use ao_covenant.Policy.Evaluator.{
  evaluate_action, evaluation_time, matching_approved_ticket, expiry_status, evaluate_task,
}
use ao_covenant.Run.Recorder.{emit, emit_policy_decision}
use ao_covenant.Contract.Graph.{has_cycle}
use ao_covenant.Contract.Validate
use ao_covenant.Contract.Validate.{validate}
use ao_covenant.Run.Prepare
use ao_covenant.Run.Prepare.{Directories, Options, Prepared, prepare}
use ao_covenant.Run.Prepare.Snapshots.{AllTaken}
use ao_covenant.Run.Prepare.Sound.{Checked, prepare-Checked}
use ao_covenant.Run.Executor
use ao_covenant.Run.Executor.Loop
use ao_covenant.Run.Executor.Loop.{execute_tasks}
use ao_covenant.Run.Executor.Loop.Events.{run_of}
use ao_covenant.Run.Adapter
use ao_covenant.Run.Adapter.{Machine, exited, default_services}
use ao_covenant.Run.Adapter.Permitted.{Writable}
use ao_covenant.Run.Adapter.Confined.{execute_tasks-Confined}
use ao_covenant.Tests.Samples.{host, contract}
use ao_covenant.Tests.Ledgers.{hash}

-- The files that were written and their contents, the last in front.
abbrev Files : Type 0
Files = List (String × String)

abbrev machine : Machine Files
machine = record {
  cancelled = λ w. none;
  make_dir = λ w path. (w, ok tt);
  write_file = λ w path contents. ((path, contents) ∷ w, ok tt);
  stat = λ w path. ok (record { is_dir = false; size = 1 });
  file_digest = λ w path. ok "digest";
  run_process = λ w dir arguments timeout_secs. (w, exited "made" "");
  now = λ w. 5;
  join = λ base path. base <> "/" <> path;
  dir = λ path. path;
}

abbrev process_allowlist : List String
process_allowlist = "./make-test" ∷ []

abbrev after : Files
after =
    (run_of (
      execute_tasks host hash (λ e. true) (λ e. true)
        (default_services host machine "/work" contract.objective process_allowlist) contract []
        "run-1" [])).world

after_test : after ≡ (
    ("/work/.covenant/process/scripted_change-process-1-stderr.txt", "")
    ∷ ("/work/.covenant/process/scripted_change-process-1-stdout.txt", "made")
    ∷ [])
unfolding default_services Adapter.execute_action Adapter.perform Adapter.execute_process
    Adapter.keep_output Adapter.write_process_artifact Adapter.process_target Adapter.store
    Adapter.safe_join Adapter.process_artifact_path Adapter.artifact_ref Adapter.fields
    Adapter.split_spaces Adapter.non_empty_words to_slash is_space has_prefix escapes
    has_windows_drive_prefix decimal execute_tasks Loop.run_rounds Loop.run_tasks Loop.run_task
    Loop.start_task Loop.execute_decided Loop.record_decisions Loop.finish_task Loop.emitting
    Loop.initial_run Loop.record_artifacts Executor.execute_task Executor.execute_side_effects
    Executor.evaluate_task_policy Executor.status_of Executor.set_status
    Executor.dependencies_complete Executor.first_denied_decision
    Executor.verify_dependencies_succeeded emit emit_policy_decision evaluate_task evaluate_action
    evaluation_time matching_approved_ticket expiry_status has lookup slash_clean decimal6 each
    string_dec
after_test = refl

abbrev AllWritable : Files → Type 0
AllWritable =
    All (λ file. Writable host machine "/work" contract [] process_allowlist file.0 file.1)

execute_tasks-Confined_example : AllWritable after
execute_tasks-Confined_example =
    execute_tasks-Confined host machine "/work" contract [] process_allowlist AllWritable
      (λ w path contents writable h. h) (λ w path contents writable h. (writable, h))
      (λ w t arguments spawnable h. h) hash (λ e. true) (λ e. true) "run-1" [] tt

abbrev dirs : Directories Files
dirs = record {
  absolute = λ path. ok path;
  default_run_id = λ w. "run-5";
  contract_digest = λ c. ok "contract";
  read_file = λ w path. ok "contents";
  create_ledger = λ w path. ((path, "") ∷ w, ok tt);
}

abbrev options : Options
options = record { workspace_dir = "/work"; out_dir = "/out"; run_id = " run-1 " }

abbrev prepared : Prepared host machine dirs
prepared = record {
  workspace_root = "/work";
  run_dir = "/out/run-1";
  run_id = "run-1";
  contract_digest = "contract";
  input_snapshots =
      record {
        schema_version = "covenant.input-snapshot.v1";
        snapshot_id = "input-000001";
        source_path = "brief.md";
        snapshot_path = "input-snapshots/brief.md";
        digest = "digest";
        media_type = "text/markdown";
      }
      ∷ [];
}

begun : (prepare host machine dirs (λ c. true) (λ t. true) [] contract options).1 ≡ ok prepared
unfolding prepare Prepare.open_run Prepare.check_execution Prepare.check_out_dir
    Prepare.check_run_id Prepare.check_reads Prepare.verify_declared_reads
    Prepare.verify_declared_read Prepare.validate_run_id Prepare.absolute_dir
    Prepare.snapshot_declared_reads Prepare.write_input_snapshot Prepare.input_snapshot
    Prepare.media_type_for_path Prepare.last_ext Adapter.safe_join validate
    Validate.validate_relative_path Validate.validate_paths Validate.validate_obligations
    Validate.validate_public_id Validate.validate_tasks Validate.validate_task
    Validate.validate_effect Validate.validate_approvals Validate.validate_approval
    Validate.validate_dependencies Validate.required_ids Validate.known_or Validate.first_invalid
    Validate.declared_effects Validate.side_effect_key Validate.allowed_task_kind
    Validate.allowed_side_effect_type Validate.is_reserved_windows_name trim_space slash_clean
    escapes has_windows_drive_prefix is_id_rune map_runes contains has_prefix to_slash decimal6
    has_cycle has each string_dec
begun = refl

prepare-Checked_example :
    Checked host machine dirs [] contract options "/work" "/out/run-1" "run-1" "contract"
    × AllTaken host machine dirs "/work" "/out/run-1" [] 0 contract.workspace.reads
        prepared.input_snapshots
prepare-Checked_example =
    prepare-Checked host machine dirs (λ c. true) (λ t. true) [] contract options prepared begun

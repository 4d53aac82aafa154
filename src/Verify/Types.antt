-- ===== src/Verify/Types.antt =====
-- internal/verify/types.go, and the errors of verifier.go; an error keeps what its message shows.
use ao_covenant.Base.{ℕ, String, Bool, Outcome}
use ao_covenant.Base.{List}
use ao_covenant.Base.Dict.{Dict}
use ao_covenant.Policy.Explain.{Explanation}

abbrev pub result_schema_version : String
result_schema_version = "covenant.verify-result.v1"

pub record Options : Type 0 where
  pub ledger_path : String
  pub evidence_path : String
  pub workspace_dir : String
  pub revoked_approval_ticket_ids : Dict Bool

pub record FailureSummary : Type 0 where
  pub failure_id : String
  pub event_id : String
  pub event_line : ℕ
  pub task_id : String
  pub phase : String
  pub reason : String

pub record Result : Type 0 where
  pub schema_version : String
  pub verified : Bool
  pub run_id : String
  pub event_count : ℕ
  pub artifact_count : ℕ
  pub input_snapshot_count : ℕ
  pub failure_count : ℕ
  pub failures : List FailureSummary
  pub policy_explanations : List Explanation
  pub ledger_digest : String
  pub last_event_hash : String
  pub public_key_sha256 : String

pub data Error : Type 0 where
  open_ledger read_evidence : Error
  event_schema_invalid : (line : ℕ) → Error
  decode_event : (line : ℕ) → Error
  evidence_schema_invalid decode_evidence : Error
  no_events : Error
  run_id_changed previous_hash_mismatch event_hash_mismatch : (event_id : String) → Error
  digest_unavailable : (path : String) → Error
  ledger_digest_mismatch run_id_mismatch : (evidence actual : String) → Error
  dir_required dir_unavailable : (label : String) → Error
  uri_mismatch : (id uri digest : String) → Error
  path_required path_escapes path_unavailable path_is_directory : (id path : String) → Error
  not_under_input_snapshots : (id path : String) → Error
  digest_mismatch : (id path evidence actual : String) → Error
  decision_without_event : (decision_id : String) → Error
  missing_producer producer_type producer_without_artifact : (artifact_id event_id : String) → Error
  row_missing_artifact row_missing_decision : (obligation_id id : String) → Error
  row_artifact_unproduced row_artifact_unclaimed : (obligation_id artifact_id : String) → Error
  row_lacks_artifact row_lacks_decision : (obligation_id id : String) → Error
  row_decision_unclaimed : (obligation_id decision_id : String) → Error
  revoked_ticket : (decision_id ticket_id : String) → Error
  failure_without_event : (failure_id event_id : String) → Error

abbrev pub Check : Type 0
Check = Outcome Error (Unit {0})

-- ===== src/Run/Types.antt =====
-- internal/run/types.go, and the payload that an event's hash covers (executor.go). A sequence
-- number is a Go int that counts up from 0.
use ao_covenant.Base.{ℕ, String, List}
use ao_covenant.Policy.Types.{Decision}
use ao_covenant.Closure.{Matrix}

abbrev pub event_schema_version : String
event_schema_version = "covenant.event.v1"

abbrev pub artifact_ref_schema_version : String
artifact_ref_schema_version = "covenant.artifact-ref.v1"

abbrev pub input_snapshot_schema_version : String
input_snapshot_schema_version = "covenant.input-snapshot.v1"

abbrev pub evidence_pack_schema_version : String
evidence_pack_schema_version = "covenant.evidence-pack.v1"

abbrev pub failure_schema_version : String
failure_schema_version = "covenant.failure.v1"

abbrev pub genesis_event_hash : String
genesis_event_hash = "0000000000000000000000000000000000000000000000000000000000000000"

pub record Event : Type 0 where
  pub schema_version : String
  pub event_id : String
  pub sequence : ℕ
  pub run_id : String
  pub previous_event_hash : String
  pub event_hash : String
  pub type : String
  pub task_id : String
  pub status : String
  pub message : String
  pub artifact_ids : List String
  pub decision_id : String
  pub decision : String
  pub effect_type : String
  pub resource : String
  pub approval_ticket_id : String

-- All of an event but its own hash.
pub record EventHashPayload : Type 0 where
  pub schema_version : String
  pub event_id : String
  pub sequence : ℕ
  pub run_id : String
  pub previous_event_hash : String
  pub type : String
  pub task_id : String
  pub status : String
  pub message : String
  pub artifact_ids : List String
  pub decision_id : String
  pub decision : String
  pub effect_type : String
  pub resource : String
  pub approval_ticket_id : String

pub record ArtifactRef : Type 0 where
  pub schema_version : String
  pub artifact_id : String
  pub uri : String
  pub digest : String
  pub media_type : String
  pub producer_event_id : String
  pub path : String

pub record InputSnapshot : Type 0 where
  pub schema_version : String
  pub snapshot_id : String
  pub source_path : String
  pub snapshot_path : String
  pub digest : String
  pub media_type : String

pub record FailureRecord : Type 0 where
  pub schema_version : String
  pub failure_id : String
  pub event_id : String
  pub task_id : String
  pub phase : String
  pub reason : String

pub record EvidencePack : Type 0 where
  pub schema_version : String
  pub run_id : String
  pub contract_digest : String
  pub ledger_digest : String
  pub run_status : String
  pub artifact_manifest : List ArtifactRef
  pub input_snapshots : List InputSnapshot
  pub policy_decisions : List Decision
  pub failures : List FailureRecord
  pub closure_matrix : Matrix

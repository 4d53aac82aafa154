-- ===== src/Tests/Evidence.antt =====
-- The verifier on the files of a short run.
use ao_covenant.Base.{
  List, String, ◌<>◌, true, false, Option, none, some, [], ◌∷◌, ◌≡◌, refl, ok, All, string_dec,
  ◌==◌, if◌then◌else◌, each,
}
use ao_covenant.Base.Dict.{lookup, has}
use ao_covenant.Text.{trim_space}
use ao_covenant.Paths.{slash_clean, escapes, has_windows_drive_prefix}
use ao_covenant.Closure.{Matrix}
use ao_covenant.Run.Types.{Event, EvidencePack, ArtifactRef, FailureRecord}
use ao_covenant.Verify.Types.{Options, Result, FailureSummary}
use ao_covenant.Verify.Chain.{verify_chain}
use ao_covenant.Verify.Provenance
use ao_covenant.Verify.Provenance.{
  verify_evidence_provenance, consume_all, policy_event_index, summarize_failures, failure_summary,
}
use ao_covenant.Verify.Provenance.Decisions.{Matched, decisions-Matched}
use ao_covenant.Verify.Provenance.Sound.{IsProvenanced, verify_evidence-IsProvenanced}
use ao_covenant.Verify.Files
use ao_covenant.Verify.Files.{Disk, verify_artifacts}
use ao_covenant.Verify.Files.Intact.{IsIntactArtifact, artifacts-IsIntactArtifact}
use ao_covenant.Verify.Verifier
use ao_covenant.Verify.Verifier.{Decoder, verify, result_of, LedgerData, read_ledger}
use ao_covenant.Verify.Verifier.Lines.{OnLine, read_ledger-OnLine}
use ao_covenant.Verify.Verifier.Sound.{IsVerified, verify-IsVerified}
use ao_covenant.Tests.Ledgers.{hash, decision, first, second}

abbrev third : Event
third = record second {
  event_id = "event-000003";
  sequence = 3;
  previous_event_hash = "event-000002";
  event_hash = "event-000003";
  type = "artifact_recorded";
  message = "out/report.md";
  artifact_ids = "report" ∷ [];
  decision_id = "";
  decision = "";
  effect_type = "";
  resource = "";
  approval_ticket_id = "";
}

abbrev report : ArtifactRef
report = record {
  schema_version = "covenant.artifact-ref.v1";
  artifact_id = "report";
  uri = "covenant-artifact://sha256/sum of report";
  digest = "sum of report";
  media_type = "text/markdown";
  producer_event_id = "event-000003";
  path = "out/report.md";
}

abbrev matrix : Matrix
matrix = record {
  schema_version = "covenant.closure-matrix.v1";
  run_id = "run-1";
  contract_digest = "";
  status = "accepted";
  rows =
      record {
        obligation_id = "change";
        required = true;
        status = "closed";
        task_ids = "scripted_change" ∷ [];
        artifact_ids = "report" ∷ [];
        policy_decision_ids = "policy-scripted_change-1" ∷ [];
        reason = "closed by successful task evidence";
      }
      ∷ [];
}

abbrev evidence : EvidencePack
evidence = record {
  schema_version = "covenant.evidence-pack.v1";
  run_id = "run-1";
  contract_digest = "";
  ledger_digest = "sum of ledger";
  run_status = "success";
  artifact_manifest = report ∷ [];
  input_snapshots = [];
  policy_decisions = decision ∷ [];
  failures = [];
  closure_matrix = matrix;
}

abbrev contents_of : String → Option String
contents_of path =
    if path == "run/events.ndjson"
    then some "ledger"
    else if path == "run/evidence-pack.json"
    then some "evidence"
    else if path == "workspace/out/report.md"
    then some "report"
    else none

abbrev disk : Disk
disk = record {
  is_directory = λ path. elim (contents_of path) [ none ↦ none | some bytes ↦ some false ];
  contents = contents_of;
  sha256 = λ bytes. "sum of " <> bytes;
  join = λ dir path. dir <> ("/" <> path);
  abs = λ path. some path;
  clean_path = λ path. path;
  base = λ path. path;
  dir = λ path. path;
}

abbrev decode_line : String → Option Event
decode_line line =
    if line == "1"
    then some first
    else if line == "2"
    then some second
    else if line == "3"
    then some third
    else none

abbrev decoder : Decoder
decoder = record {
  lines = λ bytes. some ("1" ∷ "2" ∷ "3" ∷ []);
  event_schema = λ line. true;
  event = decode_line;
  evidence_schema = λ bytes. true;
  evidence = λ bytes. some evidence;
}

abbrev options : Options
options = record {
  ledger_path = "run/events.ndjson";
  evidence_path = "run/evidence-pack.json";
  workspace_dir = "workspace";
  revoked_approval_ticket_ids = ("ticket_other", true) ∷ [];
}

abbrev result : Result
result = result_of "sum of ledger" evidence first (second ∷ third ∷ []) []

decisions_consumed :
    consume_all (policy_event_index (first ∷ second ∷ third ∷ [])) (decision ∷ []) ≡ ok tt
unfolding consume_all Provenance.consume Provenance.index_events Provenance.index_event
    Provenance.count_of lookup string_dec
decisions_consumed = refl

decisions-Matched_example : Matched (decision ∷ []) (first ∷ second ∷ third ∷ [])
decisions-Matched_example =
    decisions-Matched (first ∷ second ∷ third ∷ []) (decision ∷ []) decisions_consumed

provenance_verified : verify_evidence_provenance evidence (first ∷ second ∷ third ∷ []) ≡ ok tt
unfolding verify_evidence_provenance consume_all Provenance.consume Provenance.index_events
    Provenance.index_event Provenance.index_onto Provenance.count_of Provenance.check_producer
    Provenance.check_row Provenance.check_cited_artifact Provenance.check_missing_artifact
    Provenance.check_cited_decision Provenance.check_missing_decision each lookup string_dec
provenance_verified = refl

verify_evidence-IsProvenanced_example : IsProvenanced evidence (first ∷ second ∷ third ∷ [])
verify_evidence-IsProvenanced_example =
    verify_evidence-IsProvenanced evidence (first ∷ second ∷ third ∷ []) provenance_verified

artifacts_verified : verify_artifacts disk "workspace" (report ∷ []) ≡ ok tt
unfolding verify_artifacts Files.verify_artifact Files.workspace_artifact_path Files.check_file
    Files.file_digest slash_clean escapes has_windows_drive_prefix each string_dec
artifacts_verified = refl

artifacts-IsIntactArtifact_example : All (IsIntactArtifact disk "workspace") (report ∷ [])
artifacts-IsIntactArtifact_example =
    artifacts-IsIntactArtifact disk "workspace" (report ∷ []) artifacts_verified

run_verified : verify hash decoder disk options ≡ ok result
unfolding verify Verifier.read_ledger Verifier.verify_ledger Verifier.verify_evidence
    Verifier.read_evidence_pack Verifier.resolve_workspace_dir Files.verify_input_snapshots
    verify_chain verify_evidence_provenance consume_all Provenance.consume Provenance.index_events
    Provenance.index_event Provenance.index_onto Provenance.count_of Provenance.check_producer
    Provenance.check_row Provenance.check_cited_artifact Provenance.check_missing_artifact
    Provenance.check_cited_decision Provenance.check_missing_decision
    Provenance.verify_revoked_approval_tickets Provenance.summarize_failures verify_artifacts
    Files.verify_artifact Files.workspace_artifact_path Files.check_file Files.file_digest
    slash_clean escapes has_windows_drive_prefix trim_space each has lookup string_dec
run_verified = refl

verify-IsVerified_example : IsVerified hash decoder disk options result
verify-IsVerified_example = verify-IsVerified hash decoder disk options result run_verified

abbrev failure : FailureRecord
failure = record {
  schema_version = "covenant.failure.v1";
  failure_id = "failure-000001";
  event_id = "event-000003";
  task_id = "scripted_change";
  phase = "adapter";
  reason = "the command failed";
}

abbrev ledger : LedgerData
ledger = record {
  events = first ∷ second ∷ third ∷ [];
  event_lines = ("event-000003", 3) ∷ ("event-000002", 2) ∷ ("event-000001", 1) ∷ [];
}

abbrev summary : FailureSummary
summary = failure_summary failure 3

ledger_read : read_ledger decoder disk "run/events.ndjson" ≡ ok ledger
unfolding read_ledger Verifier.read_lines string_dec
ledger_read = refl

summarized : summarize_failures ledger.event_lines (failure ∷ []) ≡ ok (summary ∷ [])
unfolding summarize_failures lookup string_dec
summarized = refl

read_ledger-OnLine_example :
    (bytes : String) × (disk.contents "run/events.ndjson" ≡ some bytes)
    × (lines : List String) × (decoder.lines bytes ≡ some lines)
    × All (λ s. OnLine decoder lines s.event_line s.event_id) (summary ∷ [])
read_ledger-OnLine_example =
    read_ledger-OnLine decoder disk "run/events.ndjson" ledger (failure ∷ []) (summary ∷ [])
      ledger_read summarized

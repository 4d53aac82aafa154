-- ===== src/Verify/Verifier.antt =====
-- `Verify` of internal/verify/verifier.go, with the reading of the ledger and the evidence.
--
-- `Decoder` is what reads the two files: the lines of the ledger (`bufio.Scanner`, which fails on a
-- line that is too long), the JSON-schema checks of schema.ValidateBytes, and json.Unmarshal.
pub mod Sound
pub mod Lines
use ao_covenant.Base.{
  ℕ, ◌+◌, String, Bool, true, false, not, ◌&&◌, Option, none, some, List, [], ◌∷◌, ◌++◌, length,
  ◌==◌, if◌then◌else◌, Outcome, ok, err, ◌>>=◌, ◌>>◌, fail_if,
}
use ao_covenant.Base.Dict.{Dict, insert}
use ao_covenant.Text.{trim_space}
use ao_covenant.Policy.Explain.{explain_decisions}
use ao_covenant.Run.Types.{Event, EventHashPayload, EvidencePack}
use ao_covenant.Verify.Types.{
  Options, Result, Error, FailureSummary, result_schema_version, open_ledger, read_evidence,
  event_schema_invalid, decode_event, evidence_schema_invalid, decode_evidence, no_events,
  digest_unavailable, ledger_digest_mismatch, run_id_mismatch, dir_required, dir_unavailable,
}
use ao_covenant.Verify.Chain.{verify_chain}
use ao_covenant.Verify.Provenance.{
  verify_evidence_provenance, verify_revoked_approval_tickets, summarize_failures,
}
use ao_covenant.Verify.Files.{Disk, file_digest, verify_artifacts, verify_input_snapshots}

pub record Decoder : Type 0 where
  pub lines : String → Option (List String)
  pub event_schema : String → Bool
  pub event : String → Option Event
  pub evidence_schema : String → Bool
  pub evidence : String → Option EvidencePack

abbrev pub or_error {ℓ} : {A : Type ℓ} → Option A → Error → Outcome Error A
or_error none e = err e
or_error (some a) e = ok a

-- `ledgerData`: the events and the number of the last line that has each event id.
pub record LedgerData : Type 0 where
  pub events : List Event
  pub event_lines : Dict ℕ

module _ (decoder : Decoder) where
  -- The loop over the lines; `line` counts those read before.
  unfoldable pub read_lines : ℕ → LedgerData → List String → Outcome Error LedgerData
  read_lines line ledger [] = ok ledger
  read_lines line ledger (text ∷ lines) =
      let rest : Event → Outcome Error LedgerData = λ e.
        read_lines (line + 1)
          (record {
            events = ledger.events ++ e ∷ [];
            event_lines = insert e.event_id (line + 1) ledger.event_lines;
          })
          lines in
      fail_if (not (decoder.event_schema text)) (event_schema_invalid (line + 1))
      >> (or_error (decoder.event text) (decode_event (line + 1)) >>= rest)

module _ (disk : Disk) where
  -- `inferWorkspaceFromLedger`: `<workspace>/.covenant/runs/<run>/events.ndjson`
  unfoldable pub infer_workspace_from_ledger : String → Option String
  infer_workspace_from_ledger ledger_path = elim (disk.abs ledger_path) [
    | none ↦ none
    | some absolute ↦
        let cleaned = disk.clean_path absolute in
        let runs_dir = disk.dir (disk.dir cleaned) in
        let covenant_dir = disk.dir runs_dir in
        if not (disk.base cleaned == "events.ndjson")
        then none
        else if not (disk.base runs_dir == "runs" && disk.base covenant_dir == ".covenant")
        then none
        else some (disk.dir covenant_dir)
  ]

  unfoldable pub absolute_dir : String → String → Outcome Error String
  absolute_dir raw label =
      if trim_space raw == ""
      then err (dir_required label)
      else or_error (disk.abs raw) (dir_unavailable label)

  unfoldable pub resolve_workspace_dir : Options → Outcome Error String
  unfolding absolute_dir infer_workspace_from_ledger
  resolve_workspace_dir opts =
      if not (trim_space opts.workspace_dir == "")
      then absolute_dir opts.workspace_dir "workspace"
      else elim (infer_workspace_from_ledger opts.ledger_path) [
        | some inferred ↦ ok inferred
        | none ↦ absolute_dir "." "workspace"
      ]

abbrev pub last_event_hash : Event → List Event → String
last_event_hash first [] = first.event_hash
last_event_hash first (e ∷ events) = last_event_hash e events

module _ (decoder : Decoder) (disk : Disk) where
  unfoldable pub read_ledger : String → Outcome Error LedgerData
  unfolding read_lines
  read_ledger path = or_error (disk.contents path) open_ledger >>= λ bytes.
      or_error (decoder.lines bytes) open_ledger
      >>= read_lines decoder 0 (record { events = []; event_lines = [] })

  unfoldable pub read_evidence_pack : String → Outcome Error EvidencePack
  read_evidence_pack path = or_error (disk.contents path) read_evidence >>= λ bytes.
      fail_if (not (decoder.evidence_schema bytes)) evidence_schema_invalid
      >> or_error (decoder.evidence bytes) decode_evidence

module _ (disk : Disk) where
  -- The checks behind the reading of the ledger and the evidence.
  unfoldable pub verify_evidence :
      Options → String → EvidencePack → Event → List Event → Outcome Error (Unit {0})
  unfolding resolve_workspace_dir
  verify_evidence opts ledger_digest evidence first events =
      fail_if (not (evidence.ledger_digest == ledger_digest))
        (ledger_digest_mismatch evidence.ledger_digest ledger_digest)
      >> fail_if (not (evidence.run_id == first.run_id))
          (run_id_mismatch evidence.run_id first.run_id)
      >> verify_input_snapshots disk (disk.dir opts.evidence_path) evidence.input_snapshots
      >> (resolve_workspace_dir disk opts >>= λ workspace_dir.
          verify_artifacts disk workspace_dir evidence.artifact_manifest)
      >> verify_evidence_provenance evidence (first ∷ events)
      >> verify_revoked_approval_tickets evidence.policy_decisions opts.revoked_approval_ticket_ids

abbrev pub result_of : String → EvidencePack → Event → List Event → List FailureSummary → Result
result_of ledger_digest evidence first events failures = record {
  schema_version = result_schema_version;
  verified = true;
  run_id = evidence.run_id;
  event_count = length (first ∷ events);
  artifact_count = length evidence.artifact_manifest;
  input_snapshot_count = length evidence.input_snapshots;
  failure_count = length evidence.failures;
  failures = failures;
  policy_explanations = explain_decisions evidence.policy_decisions;
  ledger_digest = ledger_digest;
  last_event_hash = last_event_hash first events;
  public_key_sha256 = "";
}

module _ (hash : EventHashPayload → String) (decoder : Decoder) (disk : Disk) where
  -- `Verify` on the ledger that it has read.
  unfoldable pub verify_ledger : Options → List Event → Dict ℕ → Outcome Error Result
  unfolding verify_evidence
  verify_ledger opts [] event_lines = err no_events
  verify_ledger opts (first ∷ events) event_lines =
      verify_chain hash first events
      >> (or_error (file_digest disk opts.ledger_path) (digest_unavailable opts.ledger_path)
          >>= λ ledger_digest. read_evidence_pack decoder disk opts.evidence_path >>= λ evidence.
              verify_evidence disk opts ledger_digest evidence first events
              >> (summarize_failures event_lines evidence.failures >>= λ failures.
                  ok (result_of ledger_digest evidence first events failures)))

  unfoldable pub verify : Options → Outcome Error Result
  unfolding read_ledger verify_ledger
  verify opts = read_ledger decoder disk opts.ledger_path >>= λ ledger.
      verify_ledger opts ledger.events ledger.event_lines

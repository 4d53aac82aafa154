-- ===== src/Verify/Verifier/Sound.antt =====
-- What a result of the verifier stands for.
use ao_covenant.Base.{
  ℕ, String, Bool, false, some, List, [], ◌∷◌, ◌≡◌, ◌≢◌, arith, refl, ◌∙◌, ok, All, All-map,
  each-ok, length,
}
use ao_covenant.Base.Dict.{Dict, has, lookup}
use ao_covenant.Policy.Types.{Decision}
use ao_covenant.Run.Types.{Event, EventHashPayload, EvidencePack, genesis_event_hash}
use ao_covenant.Verify.Types.{Options, Result}
use ao_covenant.Verify.Chain.{verify_chain}
use ao_covenant.Verify.Chain.Sound.{Chained, verify_chain-Chained}
use ao_covenant.Verify.Provenance.{
  verify_evidence_provenance, verify_revoked_approval_tickets, check_revoked,
}
use ao_covenant.Verify.Provenance.Sound.{IsProvenanced, verify_evidence-IsProvenanced}
use ao_covenant.Verify.Files.{Disk, file_digest, verify_artifacts, verify_input_snapshots}
use ao_covenant.Verify.Files.Intact.{
  IsIntactArtifact, IsIntactSnapshot, artifacts-IsIntactArtifact, snapshots-IsIntactSnapshot,
}
use ao_covenant.Verify.Verifier.{
  Decoder, LedgerData, read_ledger, read_evidence_pack, verify_evidence, verify_ledger, verify,
  resolve_workspace_dir, last_event_hash,
}

-- No ticket that the decision names is revoked.
abbrev pub NotRevoked : Dict Bool → Decision → Type 0
NotRevoked revoked d = d.approval_ticket_id ≢ "" → has revoked d.approval_ticket_id ≡ false

none_revoked : (decisions : List Decision) → All (NotRevoked []) decisions
unfolding has
none_revoked [] = tt
none_revoked (d ∷ decisions) = (λ named. unfold lookup in refl, none_revoked decisions)

check_revoked-NotRevoked :
    (revoked : Dict Bool) (d : Decision) → check_revoked revoked d ≡ ok tt → NotRevoked revoked d
unfolding check_revoked
check_revoked-NotRevoked revoked d h named = ground arith

revoked_tickets-NotRevoked :
    (decisions : List Decision) (revoked : Dict Bool)
    → verify_revoked_approval_tickets decisions revoked ≡ ok tt
    → All (NotRevoked revoked) decisions
unfolding verify_revoked_approval_tickets
revoked_tickets-NotRevoked decisions [] h = none_revoked decisions
revoked_tickets-NotRevoked decisions (r ∷ revoked) h =
    All-map _ _ decisions (check_revoked-NotRevoked (r ∷ revoked)) (each-ok _ decisions h)

module _ (hash : EventHashPayload → String) (decoder : Decoder) (disk : Disk) (opts : Options) where
  -- The evidence fits the ledger, the files and the options.
  pub record IsSupported (evidence : EvidencePack) (first : Event) (events : List Event)
      : Type 0 where
    pub same_run : evidence.run_id ≡ first.run_id
    pub snapshots :
        All (IsIntactSnapshot disk (disk.dir opts.evidence_path)) evidence.input_snapshots
    pub artifacts :
        (workspace_dir : String) × (resolve_workspace_dir disk opts ≡ ok workspace_dir)
        × All (IsIntactArtifact disk workspace_dir) evidence.artifact_manifest
    pub provenance : IsProvenanced evidence (first ∷ events)
    pub not_revoked : All (NotRevoked opts.revoked_approval_ticket_ids) evidence.policy_decisions

  evidence_parts :
      (digest : String) (evidence : EvidencePack) (first : Event) (events : List Event)
      → verify_evidence disk opts digest evidence first events ≡ ok tt
      → (evidence.ledger_digest ≡ digest)
        × (evidence.run_id ≡ first.run_id)
        × (verify_input_snapshots disk (disk.dir opts.evidence_path) evidence.input_snapshots
            ≡ ok tt)
        × ((workspace_dir : String) × (resolve_workspace_dir disk opts ≡ ok workspace_dir)
            × (verify_artifacts disk workspace_dir evidence.artifact_manifest ≡ ok tt))
        × (verify_evidence_provenance evidence (first ∷ events) ≡ ok tt)
        × (verify_revoked_approval_tickets evidence.policy_decisions
              opts.revoked_approval_ticket_ids
            ≡ ok tt)
  unfolding verify_evidence
  evidence_parts digest evidence first events h = ground arith

  ledger_parts :
      (first : Event) (events : List Event) (event_lines : Dict ℕ) (result : Result)
      → verify_ledger hash decoder disk opts (first ∷ events) event_lines ≡ ok result
      → (verify_chain hash first events ≡ ok tt)
        × ((digest : String) × (evidence : EvidencePack) × (file_digest disk opts.ledger_path
              ≡ some digest)
            × (read_evidence_pack decoder disk opts.evidence_path ≡ ok evidence)
            × (verify_evidence disk opts digest evidence first events ≡ ok tt)
            × (result.run_id ≡ evidence.run_id)
            × (result.event_count ≡ length (first ∷ events))
            × (result.last_event_hash ≡ last_event_hash first events)
            × (result.ledger_digest ≡ digest))
  unfolding verify_ledger
  ledger_parts first events event_lines result h = ground arith

  evidence-IsSupported :
      (digest : String) (evidence : EvidencePack) (first : Event) (events : List Event)
      → verify_evidence disk opts digest evidence first events ≡ ok tt
      → (evidence.ledger_digest ≡ digest) × IsSupported evidence first events
  evidence-IsSupported digest evidence first events h =
      let (same_digest, same_run, snapshots, (dir, resolved, artifacts), provenance, revoked) =
        evidence_parts digest evidence first events h in
      (
        same_digest,
        record {
          same_run = same_run;
          snapshots =
              snapshots-IsIntactSnapshot disk (disk.dir opts.evidence_path) evidence.input_snapshots
                snapshots;
          artifacts = (
            dir,
            resolved,
            artifacts-IsIntactArtifact disk dir evidence.artifact_manifest artifacts,
          );
          provenance = verify_evidence-IsProvenanced evidence (first ∷ events) provenance;
          not_revoked =
              revoked_tickets-NotRevoked evidence.policy_decisions opts.revoked_approval_ticket_ids
                revoked;
        },
      )

  pub record IsVerified (result : Result) : Type 0 where
    pub first : Event
    pub events : List Event
    pub event_lines : Dict ℕ
    pub evidence : EvidencePack
    pub ledger_read :
        read_ledger decoder disk opts.ledger_path
        ≡ ok (record { events = first ∷ events; event_lines = event_lines })
    pub evidence_read : read_evidence_pack decoder disk opts.evidence_path ≡ ok evidence
    pub chained : Chained hash first.run_id genesis_event_hash (first ∷ events)
    pub digested : file_digest disk opts.ledger_path ≡ some evidence.ledger_digest
    pub supported : IsSupported evidence first events
    pub run : result.run_id ≡ first.run_id
    pub counted : result.event_count ≡ length (first ∷ events)
    pub ended : result.last_event_hash ≡ last_event_hash first events

  ledger-IsVerified :
      (events : List Event) (event_lines : Dict ℕ) (result : Result)
      → read_ledger decoder disk opts.ledger_path
        ≡ ok (record { events = events; event_lines = event_lines })
      → verify_ledger hash decoder disk opts events event_lines ≡ ok result
      → IsVerified result
  ledger-IsVerified [] event_lines result read h = unfold verify_ledger in cc
  ledger-IsVerified (first ∷ events) event_lines result read h =
      let (chained, (digest, evidence, digested, evidence_read, checked, run, counted, ended, _)) =
        ledger_parts first events event_lines result h in
      let (same_digest, supported) = evidence-IsSupported digest evidence first events checked in
      record {
        first = first;
        events = events;
        event_lines = event_lines;
        evidence = evidence;
        ledger_read = read;
        evidence_read = evidence_read;
        chained = (verify_chain-Chained hash first events).0 chained;
        digested = ground (arith, same_digest);
        supported = supported;
        run = run ∙ supported.same_run;
        counted = counted;
        ended = ended;
      }

  -- A run that verifies has a hash-chained ledger of one run whose file has the digest that the
  -- evidence names, and evidence of that run whose snapshots and artifacts are intact on disk, whose
  -- decisions, artifacts and closure rows rest on the ledger's events, and which names no revoked
  -- ticket; the result gives that ledger's run, number of events and last hash.
  pub verify-IsVerified :
      (result : Result) → verify hash decoder disk opts ≡ ok result → IsVerified result
  verify-IsVerified result h =
      let (ledger, read, rest) : (ledger : LedgerData) × (read_ledger decoder disk opts.ledger_path
            ≡ ok ledger)
          × (verify_ledger hash decoder disk opts ledger.events ledger.event_lines ≡ ok result) =
        unfold verify in ground arith in
      ledger-IsVerified ledger.events ledger.event_lines result read rest

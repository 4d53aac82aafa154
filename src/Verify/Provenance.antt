-- ===== src/Verify/Provenance.antt =====
-- `verifyEvidenceProvenance`, `verifyRevokedApprovalTickets` and `summarizeFailures` of
-- internal/verify/verifier.go. A counter that Go would read as 0 has no entry, or the entry 0.
pub mod Counters
pub mod Decisions
pub mod Sound
use ao_covenant.Base.{
  ℕ, zero, suc, ◌+◌, ◌-◌, String, ◌<>◌, Bool, true, false, not, ◌&&◌, Option, none, some, List, [],
  ◌∷◌, eqb, ◌==◌, if◌then◌else◌, Outcome, ok, err, ◌>>=◌, ◌>>◌, fail_if, each, contains_string,
}
use ao_covenant.Base.Dict.{Dict, lookup, insert, has}
use ao_covenant.Policy.Types.{Decision, decision_deny}
use ao_covenant.Closure.{Row}
use ao_covenant.Run.Types.{Event, ArtifactRef, FailureRecord, EvidencePack}
use ao_covenant.Verify.Types.{
  Error, Check, FailureSummary, decision_without_event, missing_producer, producer_type,
  producer_without_artifact, row_missing_artifact, row_artifact_unproduced, row_artifact_unclaimed,
  row_lacks_artifact, row_missing_decision, row_decision_unclaimed, row_lacks_decision,
  revoked_ticket, failure_without_event,
}

-- `eventMap`, `artifactMap` and `policyDecisionMap`: of two entries with one id the later stands.
module _ {A : Type 0} (id_of : A → String) where
  unfoldable pub index_onto : Dict A → List A → Dict A
  index_onto known [] = known
  index_onto known (x ∷ xs) = index_onto (insert (id_of x) x known) xs

abbrev pub event_map : List Event → Dict Event
event_map = index_onto (λ e. e.event_id) []

abbrev pub artifact_map : List ArtifactRef → Dict ArtifactRef
artifact_map = index_onto (λ a. a.artifact_id) []

abbrev pub policy_decision_map : List Decision → Dict Decision
policy_decision_map = index_onto (λ d. d.decision_id) []

abbrev pub or_zero : Option ℕ → ℕ
or_zero none = 0
or_zero (some n) = n

-- `counters[key]` of a `map[string]int`
unfoldable pub count_of : Dict ℕ → String → ℕ
count_of counters key = or_zero (lookup counters key)

pub record PolicyEventsByKey : Type 0 where
  pub by_decision_id : Dict ℕ
  pub legacy : Dict ℕ

abbrev pub policy_event_key : String → String → String → String
policy_event_key task_id status reason = task_id <> ("\0" <> (status <> ("\0" <> reason)))

unfoldable pub policy_event_status : String → String
policy_event_status decision = if decision == decision_deny then "failed" else "success"

abbrev pub increment : String → Dict ℕ → Dict ℕ
increment key counters = insert key (count_of counters key + 1) counters

abbrev pub decrement : String → Dict ℕ → Dict ℕ
decrement key counters = insert key (count_of counters key - 1) counters

abbrev pub legacy_key : Event → String
legacy_key e = policy_event_key e.task_id e.status e.message

-- The body of the loop of `policyEventIndex`.
unfoldable pub index_event : PolicyEventsByKey → Event → PolicyEventsByKey
index_event index event =
    if not (event.type == "policy_decided")
    then index
    else if not (event.decision_id == "")
    then record index { by_decision_id = increment event.decision_id index.by_decision_id }
    else record index { legacy = increment (legacy_key event) index.legacy }

unfoldable pub index_events : PolicyEventsByKey → List Event → PolicyEventsByKey
unfolding index_event
index_events index [] = index
index_events index (event ∷ events) = index_events (index_event index event) events

abbrev pub policy_event_index : List Event → PolicyEventsByKey
policy_event_index = index_events (record { by_decision_id = []; legacy = [] })

abbrev pub decision_key : Decision → String
decision_key d = policy_event_key d.task_id (policy_event_status d.decision) d.reason

-- The maps of the index are shared, so that what one call consumes is gone for the next.
unfoldable pub consume : PolicyEventsByKey → Decision → PolicyEventsByKey × Bool
consume index decision =
    if not (eqb (count_of index.by_decision_id decision.decision_id) 0)
    then (
      record index { by_decision_id = decrement decision.decision_id index.by_decision_id },
      true,
    )
    else if eqb (count_of index.legacy (decision_key decision)) 0
    then (index, false)
    else (record index { legacy = decrement (decision_key decision) index.legacy }, true)

unfoldable pub consume_all : PolicyEventsByKey → List Decision → Check
consume_all index [] = ok tt
consume_all index (decision ∷ decisions) =
    let step = consume index decision in
    let rest = consume_all step.0 decisions in
    if not step.1 then err (decision_without_event decision.decision_id) else rest

module _ (events : Dict Event) where
  -- The body of the loop over the artifacts.
  unfoldable pub check_producer : ArtifactRef → Check
  check_producer a = elim (lookup events a.producer_event_id) [
    | none ↦ err (missing_producer a.artifact_id a.producer_event_id)
    | some e ↦
        fail_if (not (e.type == "artifact_recorded")) (producer_type a.artifact_id e.event_id)
        >> fail_if (not (contains_string e.artifact_ids a.artifact_id))
            (producer_without_artifact a.artifact_id e.event_id)
  ]

  -- The loops over the artifacts of a row, and over all artifacts for the row.
  unfoldable pub check_cited_artifact : Dict ArtifactRef → Row → String → Check
  check_cited_artifact artifacts row artifact_id = elim (lookup artifacts artifact_id) [
    | none ↦ err (row_missing_artifact row.obligation_id artifact_id)
    | some a ↦ elim (lookup events a.producer_event_id) [
      | none ↦ err (row_artifact_unproduced row.obligation_id artifact_id)
      | some e ↦
          fail_if (not (contains_string row.task_ids e.task_id))
            (row_artifact_unclaimed row.obligation_id artifact_id)
    ]
  ]

  unfoldable pub check_missing_artifact : Row → ArtifactRef → Check
  check_missing_artifact row a = elim (lookup events a.producer_event_id) [
    | none ↦ ok tt
    | some e ↦
        fail_if
          (contains_string row.task_ids e.task_id
            && not (contains_string row.artifact_ids a.artifact_id))
          (row_lacks_artifact row.obligation_id a.artifact_id)
  ]

unfoldable pub check_cited_decision : Dict Decision → Row → String → Check
check_cited_decision decisions row decision_id = elim (lookup decisions decision_id) [
  | none ↦ err (row_missing_decision row.obligation_id decision_id)
  | some d ↦
      fail_if (not (contains_string row.task_ids d.task_id))
        (row_decision_unclaimed row.obligation_id decision_id)
]

unfoldable pub check_missing_decision : Row → Decision → Check
check_missing_decision row d =
    fail_if
      (contains_string row.task_ids d.task_id
        && not (contains_string row.policy_decision_ids d.decision_id))
      (row_lacks_decision row.obligation_id d.decision_id)

-- The body of the loop over the closure rows.
unfoldable pub check_row : EvidencePack → List Event → Row → Check
check_row evidence events row =
    each (check_cited_artifact (event_map events) (artifact_map evidence.artifact_manifest) row)
      row.artifact_ids
    >> each (check_missing_artifact (event_map events) row) evidence.artifact_manifest
    >> each (check_cited_decision (policy_decision_map evidence.policy_decisions) row)
        row.policy_decision_ids
    >> each (check_missing_decision row) evidence.policy_decisions

unfoldable pub verify_evidence_provenance : EvidencePack → List Event → Check
unfolding consume_all index_events
verify_evidence_provenance evidence events =
    consume_all (policy_event_index events) evidence.policy_decisions
    >> each (check_producer (event_map events)) evidence.artifact_manifest
    >> each (check_row evidence events) evidence.closure_matrix.rows

-- The body of the loop of `verifyRevokedApprovalTickets`.
unfoldable pub check_revoked : Dict Bool → Decision → Check
check_revoked revoked d =
    fail_if (not (d.approval_ticket_id == "") && has revoked d.approval_ticket_id)
      (revoked_ticket d.decision_id d.approval_ticket_id)

-- With nothing revoked the loop would find nothing, as the early return does.
unfoldable pub verify_revoked_approval_tickets : List Decision → Dict Bool → Check
unfolding check_revoked
verify_revoked_approval_tickets decisions [] = ok tt
verify_revoked_approval_tickets decisions (r ∷ revoked) =
    each (check_revoked (r ∷ revoked)) decisions

abbrev pub failure_summary : FailureRecord → ℕ → FailureSummary
failure_summary f line = record {
  failure_id = f.failure_id;
  event_id = f.event_id;
  event_line = line;
  task_id = f.task_id;
  phase = f.phase;
  reason = f.reason;
}

abbrev with_line : FailureRecord → Option ℕ → Outcome Error FailureSummary
with_line f none = err (failure_without_event f.failure_id f.event_id)
with_line f (some line) = ok (failure_summary f line)

unfoldable pub summarize_failures :
    Dict ℕ → List FailureRecord → Outcome Error (List FailureSummary)
summarize_failures event_lines [] = ok []
summarize_failures event_lines (f ∷ records) =
    with_line f (lookup event_lines f.event_id) >>= λ summary.
    summarize_failures event_lines records >>= λ rest. ok (summary ∷ rest)

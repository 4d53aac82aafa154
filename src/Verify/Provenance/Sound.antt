-- ===== src/Verify/Provenance/Sound.antt =====
-- What the evidence of a verified run says of its ledger.
use ao_covenant.Base.{
  String, true, some, List, [], ◌∷◌, ◌≡◌, ◌⊎◌, inl, inr, arith, ok, each-ok, >>-ok, All, Any,
  contains_string, sym, subst, All-map, Any-map,
}
use ao_covenant.Base.Dict.{Dict, lookup, insert, lookup-insert}
use ao_covenant.Policy.Types.{Decision}
use ao_covenant.Closure.{Row}
use ao_covenant.Run.Types.{Event, ArtifactRef, EvidencePack}
use ao_covenant.Verify.Provenance.{
  index_onto, event_map, artifact_map, policy_decision_map, check_producer, check_cited_artifact,
  check_missing_artifact, check_cited_decision, check_missing_decision, check_row,
  verify_evidence_provenance,
}
use ao_covenant.Verify.Provenance.Decisions.{Matched, decisions-Matched}

-- The event records the artifact.
abbrev pub Produces : ArtifactRef → Event → Type 0
Produces a e =
    (e.event_id ≡ a.producer_event_id)
    × (e.type ≡ "artifact_recorded")
    × (contains_string e.artifact_ids a.artifact_id ≡ true)

-- The event produced the artifact for one of the tasks.
abbrev pub ProducedFor : List String → ArtifactRef → Event → Type 0
ProducedFor task_ids a e =
    (e.event_id ≡ a.producer_event_id) × (contains_string task_ids e.task_id ≡ true)

-- The row cites what its tasks produced and what was decided for them, all of it and nothing else.
pub record IsRowSound (evidence : EvidencePack) (events : List Event) (row : Row) : Type 0 where
  pub artifacts_produced :
      All
        (λ id.
          Any
            (λ a. (a.artifact_id ≡ id) × Any (ProducedFor row.task_ids a) events)
            evidence.artifact_manifest)
        row.artifact_ids
  pub artifacts_cited :
      All
        (λ a.
          (e : Event)
          → lookup (event_map events) a.producer_event_id ≡ some e
          → contains_string row.task_ids e.task_id ≡ true
          → contains_string row.artifact_ids a.artifact_id ≡ true)
        evidence.artifact_manifest
  pub decisions_made :
      All
        (λ id.
          Any
            (λ d. (d.decision_id ≡ id) × (contains_string row.task_ids d.task_id ≡ true))
            evidence.policy_decisions)
        row.policy_decision_ids
  pub decisions_cited :
      All
        (λ d.
          contains_string row.task_ids d.task_id ≡ true
          → contains_string row.policy_decision_ids d.decision_id ≡ true)
        evidence.policy_decisions

pub record IsProvenanced (evidence : EvidencePack) (events : List Event) : Type 0 where
  pub decisions : Matched evidence.policy_decisions events
  pub artifacts : All (λ a. Any (Produces a) events) evidence.artifact_manifest
  pub rows : All (IsRowSound evidence events) evidence.closure_matrix.rows

module _ {A : Type 0} (id_of : A → String) where
  index_onto-Any :
      (known : Dict A) (xs : List A) (id : String) (x : A)
      → lookup (index_onto id_of known xs) id ≡ some x
      → (lookup known id ≡ some x) ⊎ Any (λ y. (y ≡ x) × (id_of y ≡ id)) xs
  unfolding index_onto
  index_onto-Any known [] id x h = inl h
  index_onto-Any known (y ∷ xs) id x h =
      elim (index_onto-Any (insert (id_of y) y known) xs id x h) [
        | inr later ↦ inr (inr later)
        | inl here ↦ ground (arith, lookup-insert (id_of y) id y known)
      ]

  -- What a map of the list returns stands in the list, under that id.
  index-Any :
      (Q : A → Type 0) (xs : List A) (id : String) (x : A)
      → lookup (index_onto id_of [] xs) id ≡ some x
      → Q x
      → Any (λ y. (id_of y ≡ id) × Q y) xs
  unfolding lookup
  index-Any Q xs id x h q = elim (index_onto-Any [] xs id x h) [
    | inl none_there ↦ cc
    | inr found ↦ Any-map _ _ xs (λ y (same, named). (named, subst Q (sym same) q)) found
  ]

module _ (events : List Event) where
  check_producer-Any :
      (a : ArtifactRef) → check_producer (event_map events) a ≡ ok tt → Any (Produces a) events
  unfolding check_producer
  check_producer-Any a h =
      let (e, found, kind, has_artifact) : (e : Event) × (lookup (event_map events)
              a.producer_event_id
            ≡ some e)
          × (e.type ≡ "artifact_recorded")
          × (contains_string e.artifact_ids a.artifact_id ≡ true) =
        ground arith in
      Any-map _ (Produces a) events (λ e (id, (k, c)). (id, k, c))
        (index-Any (λ e. e.event_id)
          (λ e.
            (e.type ≡ "artifact_recorded") × (contains_string e.artifact_ids a.artifact_id ≡ true))
          events a.producer_event_id e found (kind, has_artifact))

  check_cited_artifact-Any :
      (manifest : List ArtifactRef) (row : Row) (id : String)
      → check_cited_artifact (event_map events) (artifact_map manifest) row id ≡ ok tt
      → Any (λ a. (a.artifact_id ≡ id) × Any (ProducedFor row.task_ids a) events) manifest
  unfolding check_cited_artifact
  check_cited_artifact-Any manifest row id h =
      let (a, e, found, produced, claimed) : (a : ArtifactRef) × (e : Event) × (lookup
              (artifact_map manifest) id
            ≡ some a)
          × (lookup (event_map events) a.producer_event_id ≡ some e)
          × (contains_string row.task_ids e.task_id ≡ true) =
        ground arith in
      index-Any (λ a. a.artifact_id) (λ a. Any (ProducedFor row.task_ids a) events) manifest id a
        found
        (index-Any (λ e. e.event_id) (λ e. contains_string row.task_ids e.task_id ≡ true) events
          a.producer_event_id e produced claimed)

  check_missing_artifact-cited :
      (row : Row) (a : ArtifactRef)
      → check_missing_artifact (event_map events) row a ≡ ok tt
      → (e : Event) → lookup (event_map events) a.producer_event_id ≡ some e
      → contains_string row.task_ids e.task_id ≡ true
      → contains_string row.artifact_ids a.artifact_id ≡ true
  unfolding check_missing_artifact
  check_missing_artifact-cited row a h e found claimed = ground arith

check_cited_decision-Any :
    (decisions : List Decision) (row : Row) (id : String)
    → check_cited_decision (policy_decision_map decisions) row id ≡ ok tt
    → Any (λ d. (d.decision_id ≡ id) × (contains_string row.task_ids d.task_id ≡ true)) decisions
unfolding check_cited_decision
check_cited_decision-Any decisions row id h =
    let (d, found, claimed) : (d : Decision) × (lookup (policy_decision_map decisions) id ≡ some d)
        × (contains_string row.task_ids d.task_id ≡ true) =
      ground arith in
    index-Any (λ d. d.decision_id) (λ d. contains_string row.task_ids d.task_id ≡ true) decisions id
      d found claimed

check_missing_decision-cited :
    (row : Row) (d : Decision)
    → check_missing_decision row d ≡ ok tt
    → contains_string row.task_ids d.task_id ≡ true
    → contains_string row.policy_decision_ids d.decision_id ≡ true
unfolding check_missing_decision
check_missing_decision-cited row d h claimed = ground arith

check_row-IsRowSound :
    (evidence : EvidencePack) (events : List Event) (row : Row)
    → check_row evidence events row ≡ ok tt
    → IsRowSound evidence events row
unfolding check_row
check_row-IsRowSound evidence events row h =
    let (before, decisions_missing) = >>-ok _ _ h in
    let (artifacts, decisions) = >>-ok _ _ before in
    let (cited, missing) = >>-ok _ _ artifacts in
    record {
      artifacts_produced =
          All-map _ _ row.artifact_ids
            (check_cited_artifact-Any events evidence.artifact_manifest row)
            (each-ok _ row.artifact_ids cited);
      artifacts_cited =
          All-map _ _ evidence.artifact_manifest (check_missing_artifact-cited events row)
            (each-ok _ evidence.artifact_manifest missing);
      decisions_made =
          All-map _ _ row.policy_decision_ids
            (check_cited_decision-Any evidence.policy_decisions row)
            (each-ok _ row.policy_decision_ids decisions);
      decisions_cited =
          All-map _ _ evidence.policy_decisions (check_missing_decision-cited row)
            (each-ok _ evidence.policy_decisions decisions_missing);
    }

-- Where the check of the evidence against the ledger succeeds, each decision has a policy event of
-- its own, each artifact an event of the ledger that records it, and each closure row cites exactly
-- the artifacts and the decisions of the tasks that it names.
pub verify_evidence-IsProvenanced :
    (evidence : EvidencePack) (events : List Event)
    → verify_evidence_provenance evidence events ≡ ok tt
    → IsProvenanced evidence events
unfolding verify_evidence_provenance
verify_evidence-IsProvenanced evidence events h =
    let (before, rows) = >>-ok _ _ h in
    let (decisions, artifacts) = >>-ok _ _ before in
    record {
      decisions = decisions-Matched events evidence.policy_decisions decisions;
      artifacts =
          All-map _ _ evidence.artifact_manifest (check_producer-Any events)
            (each-ok _ evidence.artifact_manifest artifacts);
      rows =
          All-map _ _ evidence.closure_matrix.rows (check_row-IsRowSound evidence events)
            (each-ok _ evidence.closure_matrix.rows rows);
    }

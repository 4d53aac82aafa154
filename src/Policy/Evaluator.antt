-- ===== src/Policy/Evaluator.antt =====
-- internal/policy/evaluator.go, governance_classification.go and protected_paths.go.
pub mod Tickets
pub mod Authority
pub mod Revocation
pub mod Task
use ao_covenant.Base.{
  ℕ, ◌+◌, String, ◌<>◌, Bool, true, false, not, ◌&&◌, ◌||◌, Option, none, some, List, [], ◌∷◌, eqb,
  leb, ◌==◌, if◌then◌else◌,
}
use ao_covenant.Base.Dict.{has}
use ao_covenant.Text.{Host, to_lower, contains, decimal}
use ao_covenant.Paths.{slash_clean}
use ao_covenant.Policy.Types.{
  ActionRef, ApprovalTicket, no_ticket, Input, Decision, decision_schema_version, decision_allow,
  decision_deny,
}

abbrev pub claim_level_bounded_governed_rsi : String
claim_level_bounded_governed_rsi = "bounded_governed_rsi"

abbrev pub claim_level_full_autonomous_self_mutating_rsi : String
claim_level_full_autonomous_self_mutating_rsi = "full_autonomous_self_mutating_rsi"

abbrev pub full_rsi_resource : String
full_rsi_resource = "full-autonomous-self-mutating-rsi"

unfoldable pub contains_normalized : List String → String → Bool
contains_normalized [] resource = false
contains_normalized (v ∷ values) resource =
    slash_clean v == resource || contains_normalized values resource

pub data TicketStatus : Type 0 where
  missing valid expired invalid_expiration : TicketStatus

-- The ticket's `expires_at` against the time of the evaluation.
module _ (host : Host) (now : ℕ) where
  unfoldable pub expiry_status : String → TicketStatus
  expiry_status expires_at = if expires_at == "" then valid else elim (host.parse_time expires_at) [
    | none ↦ invalid_expiration
    | some at ↦ if leb at now then expired else valid
  ]

  -- The test of the loop in `matchingApprovedTicket`.
  abbrev pub covers : String → String → String → ApprovalTicket → Bool
  covers task_id effect_type resource ticket =
      ticket.task_id == task_id
      && ticket.effect_type == effect_type
      && slash_clean ticket.resource == resource
      && ticket.approved

  unfoldable pub matching_approved_ticket :
      List ApprovalTicket → String → String → String → ApprovalTicket × TicketStatus
  matching_approved_ticket [] task_id effect_type resource = (no_ticket, missing)
  matching_approved_ticket (ticket ∷ approvals) task_id effect_type resource =
      if covers task_id effect_type resource ticket
      then (ticket, expiry_status ticket.expires_at)
      else matching_approved_ticket approvals task_id effect_type resource

-- `time.Now()` is read only where the input has no time of its own.
unfoldable pub evaluation_time : Input → ℕ → ℕ
evaluation_time input now = if eqb input.evaluation_time 0 then now else input.evaluation_time

-- The results `(decision, reason, approval ticket id)`.
pub record Verdict : Type 0 where
  pub decision : String
  pub reason : String
  pub ticket_id : String

abbrev pub allow : String → String → Verdict
allow reason ticket_id = record {
  decision = decision_allow;
  reason = reason;
  ticket_id = ticket_id;
}

abbrev pub deny : String → String → Verdict
deny reason ticket_id = record { decision = decision_deny; reason = reason; ticket_id = ticket_id }

-- Both switches on a ticket's status share these reasons.
module _ (host : Host) (ticket : ApprovalTicket) where
  abbrev pub expired_reason : String
  expired_reason =
      "approval ticket " <> (host.quote ticket.ticket_id <> (" expired at " <> ticket.expires_at))

  abbrev pub invalid_expiration_reason : String
  invalid_expiration_reason =
      "approval ticket "
      <> (host.quote ticket.ticket_id
          <> (" has invalid expires_at " <> host.quote ticket.expires_at))

  abbrev pub revoked_reason : String
  revoked_reason = "approval ticket " <> (host.quote ticket.ticket_id <> " is revoked")

  unfoldable pub full_rsi_evidence_reason : Bool
  full_rsi_evidence_reason =
      let normalized = to_lower host ticket.reason in
      contains normalized "mutation authority"
      && contains normalized "rollback"
      && contains normalized "live self-change"

  unfoldable pub full_rsi_missing_evidence_reason : String
  full_rsi_missing_evidence_reason =
      let normalized = to_lower host ticket.reason in
      if contains normalized "rollback"
        && not (contains normalized "mutation authority")
        && not (contains normalized "live self-change")
      then "approval ticket "
        <> (host.quote ticket.ticket_id
            <> " includes retained rollback rehearsal evidence, but retained rollback rehearsal alone is insufficient for claim_level=full_autonomous_self_mutating_rsi; downgrade to claim_level=bounded_governed_rsi until mutation authority and live self-change evidence also exist")
      else "approval ticket "
        <> (host.quote ticket.ticket_id
            <> " is missing evidence for claim_level=full_autonomous_self_mutating_rsi; downgrade to claim_level=bounded_governed_rsi until mutation authority, rollback, and live self-change evidence exist")

module _ (host : Host) (input : Input) where
  abbrev revoked : ApprovalTicket → Bool
  revoked ticket = has input.revoked_approval_ticket_ids ticket.ticket_id

  -- A valid ticket that is not revoked allows, with the given reason.
  unfoldable pub unless_revoked : String → ApprovalTicket → Verdict
  unless_revoked reason ticket =
      if revoked ticket
      then deny (revoked_reason host ticket) ticket.ticket_id
      else allow reason ticket.ticket_id

  -- The case `"network.request", "process.spawn"` of `evaluateAction`.
  unfoldable pub evaluate_ticketed : String → ApprovalTicket × TicketStatus → Verdict
  unfolding unless_revoked
  evaluate_ticketed type (ticket, valid) = unless_revoked "approved by ticket" ticket
  evaluate_ticketed type (ticket, expired) = deny (expired_reason host ticket) ""
  evaluate_ticketed type (ticket, invalid_expiration) =
      deny (invalid_expiration_reason host ticket) ""
  evaluate_ticketed type (ticket, missing) = deny (type <> " requires an approved ticket") ""

  full_rsi_claim : ApprovalTicket → Verdict
  full_rsi_claim ticket =
      if revoked ticket
      then deny (revoked_reason host ticket) ticket.ticket_id
      else if not (full_rsi_evidence_reason host ticket)
      then deny (full_rsi_missing_evidence_reason host ticket) ticket.ticket_id
      else allow
          "approved full RSI claim evidence for claim_level=full_autonomous_self_mutating_rsi"
          ticket.ticket_id

  -- `evaluateClaimPublish`, on the ticket that it finds.
  unfoldable pub evaluate_claim_publish : String → ApprovalTicket × TicketStatus → Verdict
  unfolding unless_revoked full_rsi_claim
  evaluate_claim_publish resource (ticket, expired) = deny (expired_reason host ticket) ""
  evaluate_claim_publish resource (ticket, invalid_expiration) =
      deny (invalid_expiration_reason host ticket) ""
  evaluate_claim_publish resource (ticket, valid) =
      if not (resource == full_rsi_resource)
      then unless_revoked "approved claim publication" ticket
      else full_rsi_claim ticket
  evaluate_claim_publish resource (ticket, missing) =
      if not (resource == full_rsi_resource)
      then deny "claim.publish requires an approved ticket" ""
      else deny
          "claim_level=full_autonomous_self_mutating_rsi is denied; downgrade to claim_level=bounded_governed_rsi until mutation authority, rollback, and live self-change evidence exist"
          ""

  unfoldable pub evaluate_action : ℕ → ActionRef → Verdict
  unfolding evaluate_ticketed evaluate_claim_publish
  evaluate_action now action =
      let resource = slash_clean action.resource in
      let found =
        matching_approved_ticket host (evaluation_time input now) input.approvals input.task_id
          action.type resource in
      if not (input.mode == "strict")
      then deny ("unsupported policy mode " <> host.quote input.mode) ""
      else if action.type == "file.write"
      then (if contains_normalized input.workspace_writes resource
          then allow "declared workspace write" ""
          else deny "file write is not declared in workspace writes" "")
      else if action.type == "file.read"
      then (if contains_normalized input.workspace_reads resource
          then allow "declared workspace read" ""
          else deny "file read is not declared in workspace reads" "")
      else if action.type == "network.request" || action.type == "process.spawn"
      then evaluate_ticketed action.type found
      else if action.type == "claim.publish"
      then evaluate_claim_publish resource found
      else deny "unknown side effect type" ""

  -- `clock i` is what `time.Now()` returns for the action at index `i`.
  module _ (clock : ℕ → ℕ) where
    abbrev pub decision_of : ℕ → ActionRef → Decision
    decision_of index action =
        let verdict = evaluate_action (clock index) action in
        record {
          schema_version = decision_schema_version;
          decision_id = "policy-" <> (input.task_id <> ("-" <> decimal (index + 1)));
          task_id = input.task_id;
          effect_type = action.type;
          resource = slash_clean action.resource;
          decision = verdict.decision;
          reason = verdict.reason;
          approval_ticket_id = verdict.ticket_id;
        }

    unfoldable pub evaluate_from : ℕ → List ActionRef → List Decision
    evaluate_from index [] = []
    evaluate_from index (action ∷ actions) =
        decision_of index action ∷ evaluate_from (index + 1) actions

    unfoldable pub evaluate_task : List Decision
    unfolding evaluate_from
    evaluate_task = evaluate_from 0 input.actions

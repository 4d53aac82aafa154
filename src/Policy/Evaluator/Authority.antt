-- ===== src/Policy/Evaluator/Authority.antt =====
-- What an allowed side effect rests on: the engine allows an action exactly when the policy input
-- authorises it. The two directions are in the modules below.
pub mod Sound
pub mod Complete
use text.Mathlib.TextEquality.{eq_iff}
use ao_covenant.Base.{
  ℕ, String, Bool, true, false, List, [], ◌∷◌, ◌≡◌, ◌≢◌, ◌⊎◌, ◌↔◌, inl, inr, arith, Any, First,
  Bool-cases, refl, sym, ap, ◌∙◌, ◌==◌,
}
use ao_covenant.Base.Dict.{has}
use ao_covenant.Text.{Host, to_lower, contains}
use ao_covenant.Paths.{slash_clean}
use ao_covenant.Policy.Types.{ActionRef, ApprovalTicket, Input, decision_allow, decision_deny}
use ao_covenant.Policy.Evaluator.{
  contains_normalized, evaluation_time, evaluate_action, Verdict, TicketStatus, missing, valid,
  full_rsi_resource, full_rsi_evidence_reason, matching_approved_ticket, evaluate_ticketed,
  evaluate_claim_publish, unless_revoked, full_rsi_claim,
}
use ao_covenant.Policy.Evaluator.Tickets.{
  Covers, Unexpired, expiry-valid, matching-First, matching-of_First,
}

-- A path of the list is the resource, once both are normalised.
abbrev pub Declared : List String → String → Type 0
Declared values resource = Any (λ v. slash_clean v ≡ slash_clean resource) values

pub contains_normalized-Declared :
    (values : List String) (resource : String)
    → (contains_normalized values (slash_clean resource) ≡ true) ↔ Declared values resource
unfolding contains_normalized
contains_normalized-Declared [] resource = (λ h. cc, λ h. absurd h)
contains_normalized-Declared (v ∷ values) resource = (
  λ h. ground (arith, contains_normalized-Declared values resource),
  λ h. ground (arith, contains_normalized-Declared values resource),
)

-- A full-RSI claim needs its three kinds of evidence named in the ticket's reason.
abbrev pub Evidenced : Host → String → ApprovalTicket → Type 0
Evidenced host resource ticket =
    (resource ≢ full_rsi_resource)
    ⊎ ((contains (to_lower host ticket.reason) "mutation authority" ≡ true)
        × (contains (to_lower host ticket.reason) "rollback" ≡ true)
        × (contains (to_lower host ticket.reason) "live self-change" ≡ true))

module _ (host : Host) (input : Input) (now : ℕ) (action : ActionRef) where
  -- The first approved ticket for the action, unexpired and not revoked.
  pub record Ticketed (ticket : ApprovalTicket) : Type 0 where
    pub first :
        First
          (Covers input.task_id action.type (slash_clean action.resource))
          input.approvals
          ticket
    pub unexpired : Unexpired host (evaluation_time input now) ticket
    pub not_revoked : has input.revoked_approval_ticket_ids ticket.ticket_id ≡ false

  pub data Authorised (ticket_id : String) : Type 0 where
    write :
        action.type ≡ "file.write"
        → Declared input.workspace_writes action.resource
        → ticket_id ≡ ""
        → Authorised ticket_id
    read :
        action.type ≡ "file.read"
        → Declared input.workspace_reads action.resource
        → ticket_id ≡ ""
        → Authorised ticket_id
    ticketed :
        (ticket : ApprovalTicket)
        → (action.type ≡ "network.request") ⊎ (action.type ≡ "process.spawn")
        → Ticketed ticket
        → ticket_id ≡ ticket.ticket_id
        → Authorised ticket_id
    claim :
        (ticket : ApprovalTicket)
        → action.type ≡ "claim.publish"
        → Ticketed ticket
        → Evidenced host (slash_clean action.resource) ticket
        → ticket_id ≡ ticket.ticket_id
        → Authorised ticket_id

module _ (host : Host) (input : Input) (now : ℕ) (action : ActionRef) where
  -- The ticket that the evaluation of the action looks at.
  unfoldable pub found_ticket : ApprovalTicket × TicketStatus
  found_ticket =
      matching_approved_ticket host (evaluation_time input now) input.approvals input.task_id
        action.type (slash_clean action.resource)

  abbrev pub verdict : Verdict
  verdict = evaluate_action host input now action

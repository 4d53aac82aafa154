-- ===== src/Policy/Evaluator/Authority/Complete.antt =====
-- Whatever is authorised is allowed.
use text.Mathlib.TextEquality.{eq_iff}
use ao_covenant.Base.{ℕ, String, false, ◌≡◌, ◌≢◌, ◌⊎◌, arith, refl, ap, ◌∙◌}
use ao_covenant.Base.Dict.{has}
use ao_covenant.Text.{Host}
use ao_covenant.Paths.{slash_clean}
use ao_covenant.Policy.Types.{ActionRef, ApprovalTicket, Input, decision_allow}
use ao_covenant.Policy.Evaluator.{
  evaluation_time, evaluate_action, valid, full_rsi_evidence_reason, evaluate_ticketed,
  evaluate_claim_publish,
}
use ao_covenant.Policy.Evaluator.Tickets.{expiry-valid, matching-of_First}
use ao_covenant.Policy.Evaluator.Authority.{
  contains_normalized-Declared, Ticketed, Evidenced, Authorised, write, read, ticketed, claim,
  found_ticket, verdict,
}
use ao_covenant.Policy.Evaluator.Authority.{
  contains_normalized-Declared, Ticketed, Evidenced, Authorised, write, read, ticketed, claim,
  found_ticket, verdict,
}

-- The five effect types are different texts.
pub effect_types_differ :
    (◌≢◌ {A = String} "file.read" "file.write")
    × (◌≢◌ {A = String} "network.request" "file.write")
    × (◌≢◌ {A = String} "network.request" "file.read")
    × (◌≢◌ {A = String} "process.spawn" "file.write")
    × (◌≢◌ {A = String} "process.spawn" "file.read")
    × (◌≢◌ {A = String} "claim.publish" "file.write")
    × (◌≢◌ {A = String} "claim.publish" "file.read")
    × (◌≢◌ {A = String} "claim.publish" "network.request")
    × (◌≢◌ {A = String} "claim.publish" "process.spawn")
effect_types_differ = (
  ground (arith, eq_iff "file.read" "file.write"),
  ground (arith, eq_iff "network.request" "file.write"),
  ground (arith, eq_iff "network.request" "file.read"),
  ground (arith, eq_iff "process.spawn" "file.write"),
  ground (arith, eq_iff "process.spawn" "file.read"),
  ground (arith, eq_iff "claim.publish" "file.write"),
  ground (arith, eq_iff "claim.publish" "file.read"),
  ground (arith, eq_iff "claim.publish" "network.request"),
  ground (arith, eq_iff "claim.publish" "process.spawn"),
)

module _ (host : Host) (input : Input) where
  ticketed-of_valid :
      (type : String) (ticket : ApprovalTicket)
      → has input.revoked_approval_ticket_ids ticket.ticket_id ≡ false
      → (evaluate_ticketed host input type (ticket, valid)).decision ≡ decision_allow
  unfolding evaluate_ticketed
  ticketed-of_valid type ticket h = rw h refl

  claim-of_valid :
      (resource : String) (ticket : ApprovalTicket)
      → has input.revoked_approval_ticket_ids ticket.ticket_id ≡ false
      → Evidenced host resource ticket
      → (evaluate_claim_publish host input resource (ticket, valid)).decision ≡ decision_allow
  unfolding evaluate_claim_publish full_rsi_evidence_reason
  claim-of_valid resource ticket h evidence = ground arith

module _ (host : Host) (input : Input) (now : ℕ) (action : ActionRef) where
  found-of_Ticketed :
      (ticket : ApprovalTicket)
      → Ticketed host input now action ticket
      → (found_ticket host input now action) ≡ (ticket, valid)
  unfolding found_ticket
  found-of_Ticketed ticket t =
      matching-of_First input.task_id action.type (slash_clean action.resource) host
        (evaluation_time input now) input.approvals ticket t.first
      ∙ ap (λ s. (ticket, s)) ((expiry-valid host (evaluation_time input now) ticket).1 t.unexpired)

  dispatch_ticketed :
      input.mode ≡ "strict"
      → (action.type ≡ "network.request") ⊎ (action.type ≡ "process.spawn")
      → verdict host input now action
        ≡ evaluate_ticketed host input action.type (found_ticket host input now action)
  unfolding evaluate_action found_ticket
  dispatch_ticketed strict type = ground (arith, effect_types_differ)

  dispatch_claim :
      input.mode ≡ "strict"
      → action.type ≡ "claim.publish"
      → verdict host input now action
        ≡ evaluate_claim_publish host input
            (slash_clean action.resource)
            (found_ticket host input now action)
  unfolding evaluate_action found_ticket
  dispatch_claim strict type = ground (arith, effect_types_differ)

  -- In strict mode, whatever the input authorises is allowed.
  pub Authorised-allow :
      (ticket_id : String)
      → input.mode ≡ "strict"
      → Authorised host input now action ticket_id
      → (evaluate_action host input now action).decision ≡ decision_allow
  unfolding evaluate_action
  Authorised-allow id strict (write type declared _) =
      ground
        (arith, (contains_normalized-Declared input.workspace_writes action.resource).1 declared)
  Authorised-allow id strict (read type declared _) = ground (
    arith,
    (contains_normalized-Declared input.workspace_reads action.resource).1 declared,
    effect_types_differ,
  )
  Authorised-allow id strict (ticketed ticket type t _) =
      ap (λ v. v.decision)
        (dispatch_ticketed strict type
          ∙ ap (evaluate_ticketed host input action.type) (found-of_Ticketed ticket t))
      ∙ ticketed-of_valid host input action.type ticket t.not_revoked
  Authorised-allow id strict (claim ticket type t evidence _) =
      ap (λ v. v.decision)
        (dispatch_claim strict type
          ∙ ap (evaluate_claim_publish host input (slash_clean action.resource))
              (found-of_Ticketed ticket t))
      ∙ claim-of_valid host input (slash_clean action.resource) ticket t.not_revoked evidence

-- ===== src/Policy/Evaluator/Authority/Sound.antt =====
-- Whatever is allowed is authorised.
use text.Mathlib.TextEquality.{eq_iff}
use ao_covenant.Base.{ℕ, String, true, false, ◌≡◌, ◌≢◌, ◌⊎◌, inl, inr, arith, sym, ap, ◌∙◌}
use ao_covenant.Base.Dict.{has}
use ao_covenant.Text.{Host}
use ao_covenant.Paths.{slash_clean}
use ao_covenant.Policy.Types.{ActionRef, ApprovalTicket, Input, decision_allow, decision_deny}
use ao_covenant.Policy.Evaluator.{
  contains_normalized, evaluation_time, evaluate_action, TicketStatus, missing, valid,
  full_rsi_evidence_reason, evaluate_ticketed, evaluate_claim_publish,
}
use ao_covenant.Policy.Evaluator.Tickets.{expiry-valid, matching-First}
use ao_covenant.Policy.Evaluator.Authority.{
  contains_normalized-Declared, Ticketed, Evidenced, Authorised, write, read, ticketed, claim,
  found_ticket, verdict,
}
use ao_covenant.Policy.Evaluator.Authority.{
  contains_normalized-Declared, Ticketed, Evidenced, Authorised, write, read, ticketed, claim,
  found_ticket, verdict,
}

deny-ne-allow : ◌≢◌ {A = String} decision_deny decision_allow
deny-ne-allow = ground (arith, eq_iff decision_deny decision_allow)

module _ (host : Host) (input : Input) where
  ticketed-allow :
      (type : String) (found : ApprovalTicket × TicketStatus)
      → (evaluate_ticketed host input type found).decision ≡ decision_allow
      → (found.1 ≡ valid)
        × (has input.revoked_approval_ticket_ids found.0.ticket_id ≡ false)
        × ((evaluate_ticketed host input type found).ticket_id ≡ found.0.ticket_id)
  unfolding evaluate_ticketed
  ticketed-allow type (ticket, valid) h = ground (arith, deny-ne-allow)
  ticketed-allow type (ticket, _) h = absurd (deny-ne-allow h)

  claim-allow :
      (resource : String) (found : ApprovalTicket × TicketStatus)
      → let verdict = evaluate_claim_publish host input resource found in
        verdict.decision ≡ decision_allow
        → (found.1 ≡ valid)
          × (has input.revoked_approval_ticket_ids found.0.ticket_id ≡ false)
          × (verdict.ticket_id ≡ found.0.ticket_id)
          × Evidenced host resource found.0
  unfolding evaluate_claim_publish full_rsi_evidence_reason
  claim-allow resource (ticket, valid) h = ground (arith, deny-ne-allow)
  claim-allow resource (ticket, missing) h = ground (arith, deny-ne-allow)
  claim-allow resource (ticket, _) h = absurd (deny-ne-allow h)

module _ (host : Host) (input : Input) (now : ℕ) (action : ActionRef) where
  found-Ticketed :
      (found_ticket host input now action).1 ≡ valid
      → has input.revoked_approval_ticket_ids (found_ticket host input now action).0.ticket_id
        ≡ false
      → Ticketed host input now action (found_ticket host input now action).0
  unfolding found_ticket
  found-Ticketed is_valid free =
      let (first, status) =
        matching-First input.task_id action.type (slash_clean action.resource) host
          (evaluation_time input now) input.approvals (λ e. cc) in
      record {
        first = first;
        unexpired =
            (expiry-valid host (evaluation_time input now) (found_ticket host input now action).0).0
              (sym status ∙ is_valid);
        not_revoked = free;
      }

  allow-cases :
      (verdict host input now action).decision ≡ decision_allow
      → (input.mode ≡ "strict")
        × (((action.type ≡ "file.write")
              × (contains_normalized input.workspace_writes (slash_clean action.resource) ≡ true)
              × ((verdict host input now action).ticket_id ≡ ""))
            ⊎ ((action.type ≡ "file.read")
                × (contains_normalized input.workspace_reads (slash_clean action.resource) ≡ true)
                × ((verdict host input now action).ticket_id ≡ ""))
            ⊎ (((action.type ≡ "network.request") ⊎ (action.type ≡ "process.spawn"))
                × (verdict host input now action
                    ≡ evaluate_ticketed host input action.type
                        (found_ticket host input now action)))
            ⊎ ((action.type ≡ "claim.publish")
                × (verdict host input now action
                    ≡ evaluate_claim_publish host input
                        (slash_clean action.resource)
                        (found_ticket host input now action))))
  unfolding evaluate_action found_ticket
  allow-cases h = ground (arith, deny-ne-allow)

  by_ticket :
      (verdict host input now action).decision ≡ decision_allow
      → ((action.type ≡ "network.request") ⊎ (action.type ≡ "process.spawn"))
        × (verdict host input now action
            ≡ evaluate_ticketed host input action.type (found_ticket host input now action))
      → Authorised host input now action (verdict host input now action).ticket_id
  by_ticket h (type, same) =
      let (usable, free, id) =
        ticketed-allow host input action.type (found_ticket host input now action)
          (ap (λ v. v.decision) (sym same) ∙ h) in
      ticketed (found_ticket host input now action).0 type (found-Ticketed usable free)
        (ap (λ v. v.ticket_id) same ∙ id)

  by_claim :
      (verdict host input now action).decision ≡ decision_allow
      → (action.type ≡ "claim.publish")
        × (verdict host input now action
            ≡ evaluate_claim_publish host input
                (slash_clean action.resource)
                (found_ticket host input now action))
      → Authorised host input now action (verdict host input now action).ticket_id
  by_claim h (type, same) =
      let (usable, free, id, evidence) =
        claim-allow host input (slash_clean action.resource) (found_ticket host input now action)
          (ap (λ v. v.decision) (sym same) ∙ h) in
      claim (found_ticket host input now action).0 type (found-Ticketed usable free) evidence
        (ap (λ v. v.ticket_id) same ∙ id)

  -- An allowed action is evaluated in strict mode and authorised by the input, under the ticket
  -- that the verdict names.
  pub allow-Authorised :
      (evaluate_action host input now action).decision ≡ decision_allow
      → (input.mode ≡ "strict")
        × Authorised host input now action (evaluate_action host input now action).ticket_id
  allow-Authorised h =
      let (strict, cases) = allow-cases h in
      (
        strict,
        elim cases [
          | inl (type, declared, id) ↦
              write type
                ((contains_normalized-Declared input.workspace_writes action.resource).0 declared)
                id
          | inr (inl (type, declared, id)) ↦
              read type
                ((contains_normalized-Declared input.workspace_reads action.resource).0 declared) id
          | inr (inr (inl t)) ↦ by_ticket h t
          | inr (inr (inr c)) ↦ by_claim h c
        ],
      )

-- ===== src/Policy/Evaluator/Task.antt =====
-- What `EvaluateTask` returns for a whole task.
use ao_covenant.Base.{ℕ, ◌+◌, String, List, [], ◌∷◌, map, ◌≡◌, ◌⊎◌, inr, ap, arith, All, refl}
use ao_covenant.Text.{Host}
use ao_covenant.Paths.{slash_clean}
use ao_covenant.Policy.Types.{
  ActionRef, ApprovalTicket, Input, Decision, decision_schema_version, decision_allow,
  decision_deny,
}
use ao_covenant.Policy.Evaluator.{
  TicketStatus, evaluate_action, evaluate_ticketed, evaluate_claim_publish, evaluate_from,
  evaluate_task, valid, missing,
}
use ao_covenant.Policy.Evaluator.Authority.{found_ticket}

abbrev pub AllowOrDeny : String → Type 0
AllowOrDeny decision = (decision ≡ decision_allow) ⊎ (decision ≡ decision_deny)

module _ (host : Host) (input : Input) where
  ticketed-AllowOrDeny :
      (type : String) (found : ApprovalTicket × TicketStatus)
      → AllowOrDeny (evaluate_ticketed host input type found).decision
  unfolding evaluate_ticketed
  ticketed-AllowOrDeny type (ticket, valid) = ground arith
  ticketed-AllowOrDeny type (ticket, _) = inr refl

  claim-AllowOrDeny :
      (resource : String) (found : ApprovalTicket × TicketStatus)
      → AllowOrDeny (evaluate_claim_publish host input resource found).decision
  unfolding evaluate_claim_publish
  claim-AllowOrDeny resource (ticket, valid) = ground arith
  claim-AllowOrDeny resource (ticket, missing) = ground arith
  claim-AllowOrDeny resource (ticket, _) = inr refl

  pub action-AllowOrDeny :
      (now : ℕ) (action : ActionRef) → AllowOrDeny (evaluate_action host input now action).decision
  unfolding evaluate_action found_ticket
  action-AllowOrDeny now action = ground (
    arith,
    ticketed-AllowOrDeny action.type (found_ticket host input now action),
    claim-AllowOrDeny (slash_clean action.resource) (found_ticket host input now action),
  )

  -- The fields of a decision that say what was decided on.
  abbrev pub subject : Decision → String × String × String
  subject d = (d.task_id, d.effect_type, d.resource)

  abbrev pub requested : ActionRef → String × String × String
  requested a = (input.task_id, a.type, slash_clean a.resource)

  pub IsDecided : Decision → Type 0
  IsDecided d = AllowOrDeny d.decision × (d.schema_version ≡ decision_schema_version)

  evaluate_from_lem :
      (clock : ℕ → ℕ) (index : ℕ) (actions : List ActionRef)
      → (map subject (evaluate_from host input clock index actions) ≡ map requested actions)
        × All IsDecided (evaluate_from host input clock index actions)
  unfolding evaluate_from IsDecided
  evaluate_from_lem clock index [] = (refl, tt)
  evaluate_from_lem clock index (a ∷ actions) =
      let (same, decided) = evaluate_from_lem clock (index + 1) actions in
      (ap (λ rest. requested a ∷ rest) same, ((action-AllowOrDeny (clock index) a, refl), decided))

  -- A task's decisions stand in the order of its actions, each about the task, the effect and the
  -- normalised resource of its action, and each is an allow or a deny under the decision schema.
  pub evaluate_task-decides :
      (clock : ℕ → ℕ)
      → (map subject (evaluate_task host input clock) ≡ map requested input.actions)
        × All IsDecided (evaluate_task host input clock)
  unfolding evaluate_task
  evaluate_task-decides clock = evaluate_from_lem clock 0 input.actions

-- ===== src/Policy/Evaluator/Tickets.antt =====
-- The ticket that `matchingApprovedTicket` finds: the first approved one for the task, the effect
-- and the normalised resource, with its expiry judged at the time of the evaluation.
use ao_covenant.Base.{
  ℕ, ◌<◌, String, true, some, List, [], ◌∷◌, ◌≡◌, ◌≢◌, ◌⊎◌, ◌↔◌, inl, inr, arith, First, Bool-cases,
  refl,
}
use ao_covenant.Text.{Host}
use ao_covenant.Paths.{slash_clean}
use ao_covenant.Policy.Types.{ApprovalTicket}
use ao_covenant.Policy.Evaluator.{missing, valid, expiry_status, covers, matching_approved_ticket}

pub record Covers (task_id effect_type resource : String) (ticket : ApprovalTicket) : Type 0 where
  pub same_task : ticket.task_id ≡ task_id
  pub same_effect : ticket.effect_type ≡ effect_type
  pub same_resource : slash_clean ticket.resource ≡ resource
  pub is_approved : ticket.approved ≡ true

-- The ticket has no expiry, or one that parses and lies after `now`.
abbrev pub Unexpired : Host → ℕ → ApprovalTicket → Type 0
Unexpired host now ticket =
    (ticket.expires_at ≡ "")
    ⊎ ((at : ℕ) × (host.parse_time ticket.expires_at ≡ some at) × (now < at))

module _ (host : Host) (now : ℕ) where
  pub expiry-valid :
      (ticket : ApprovalTicket)
      → (expiry_status host now ticket.expires_at ≡ valid) ↔ Unexpired host now ticket
  unfolding expiry_status
  expiry-valid ticket = (λ h. ground arith, λ h. ground arith)

module _ (task_id effect_type resource : String) where
  covers-Covers :
      (host : Host) (now : ℕ) (ticket : ApprovalTicket)
      → (covers host now task_id effect_type resource ticket ≡ true)
        ↔ Covers task_id effect_type resource ticket
  covers-Covers host now ticket = (λ h. ground arith, λ h. ground arith)

  -- The found ticket, when there is one.
  pub matching-First :
      (host : Host) (now : ℕ) (approvals : List ApprovalTicket)
      → let found = matching_approved_ticket host now approvals task_id effect_type resource in
        found.1 ≢ missing
        → First (Covers task_id effect_type resource) approvals found.0
          × (found.1 ≡ expiry_status host now found.0.expires_at)
  unfolding matching_approved_ticket
  matching-First host now [] h = absurd (h refl)
  matching-First host now (t ∷ ts) h =
      elim (Bool-cases (covers host now task_id effect_type resource t)) [
        | inl e ↦ rw e (inl ((covers-Covers host now t).0 e, refl), refl)
        | inr e ↦
            let (first, status) = matching-First host now ts (rw e at h) in
            rw e (inr (λ c. cc (e, (covers-Covers host now t).1 c), first), status)
      ]

  -- The first covering ticket is the one that is found.
  pub matching-of_First :
      (host : Host) (now : ℕ) (approvals : List ApprovalTicket) (ticket : ApprovalTicket)
      → First (Covers task_id effect_type resource) approvals ticket
      → matching_approved_ticket host now approvals task_id effect_type resource
        ≡ (ticket, expiry_status host now ticket.expires_at)
  unfolding matching_approved_ticket
  matching-of_First host now [] ticket h = absurd h
  matching-of_First host now (t ∷ ts) ticket (inl (c, same)) =
      rw ((covers-Covers host now t).1 c, same) refl
  matching-of_First host now (t ∷ ts) ticket (inr (fails, first)) =
      elim (Bool-cases (covers host now task_id effect_type resource t)) [
        | inl e ↦ absurd (fails ((covers-Covers host now t).0 e))
        | inr e ↦ rw e (matching-of_First host now ts ticket first)
      ]

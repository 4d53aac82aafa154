-- ===== src/Approval/Attach.antt =====
-- What attaching a ticket does to a contract.
use ao_covenant.Base.{
  String, Bool, true, false, List, [], ◌∷◌, ◌≡◌, ◌⊎◌, inl, inr, arith, refl, ap, ap₂, sym, subst,
  ◌==◌, if◌then◌else◌, Bool-cases, ok, All, Any,
}
use ao_covenant.Text.{Host}
use ao_covenant.Policy.Types.{ApprovalTicket}
use ao_covenant.Contract.Types.{Contract, Task}
use ao_covenant.Contract.Validate.{validate}
use ao_covenant.Contract.Validate.Sound.{IsWellFormed, validate-IsWellFormed}
use ao_covenant.Approval.{replace_approval, append_or_replace_approval, attach, validate_ticket}

-- The tickets of other ids, in their order.
unfoldable pub others : String → List ApprovalTicket → List ApprovalTicket
others id [] = []
others id (t ∷ approvals) =
    let rest = others id approvals in if t.ticket_id == id then rest else t ∷ rest

replace-others :
    (replaced : Bool) (approvals : List ApprovalTicket) (ticket : ApprovalTicket)
    → others ticket.ticket_id (replace_approval replaced approvals ticket)
      ≡ others ticket.ticket_id approvals
unfolding others replace_approval
replace-others true [] ticket = refl
replace-others false [] ticket = ground arith
replace-others replaced (t ∷ approvals) ticket =
    ground (arith, replace-others true approvals ticket, replace-others replaced approvals ticket)

replace-same :
    (replaced : Bool) (approvals : List ApprovalTicket) (ticket : ApprovalTicket)
    → All
        (λ t. t.ticket_id ≡ ticket.ticket_id → t ≡ ticket)
        (replace_approval replaced approvals ticket)
unfolding replace_approval
replace-same true [] ticket = tt
replace-same false [] ticket = (λ e. refl, tt)
replace-same replaced (t ∷ approvals) ticket = elim (Bool-cases (t.ticket_id == ticket.ticket_id)) [
  | inl same ↦ rw same (λ e. refl, replace-same true approvals ticket)
  | inr differ ↦ rw differ (λ e. ground arith, replace-same replaced approvals ticket)
]

replace-Any :
    (approvals : List ApprovalTicket) (ticket : ApprovalTicket)
    → Any (λ t. t ≡ ticket) (replace_approval false approvals ticket)
unfolding replace_approval
replace-Any [] ticket = inl refl
replace-Any (t ∷ approvals) ticket = elim (Bool-cases (t.ticket_id == ticket.ticket_id)) [
  | inl same ↦ rw same (inl refl)
  | inr differ ↦ rw differ (inr (replace-Any approvals ticket))
]

later :
    (replaced : Bool) (t ticket : ApprovalTicket) (approvals : List ApprovalTicket)
    → (replaced ≡ true) ⊎ Any (λ u. u ≡ ticket) (t ∷ approvals)
    → (t.ticket_id == ticket.ticket_id) ≡ false
    → (replaced ≡ true) ⊎ Any (λ u. u ≡ ticket) approvals
later replaced t ticket approvals (inl done) differ = inl done
later replaced t ticket approvals (inr (inr there)) differ = inr there
later replaced t ticket approvals (inr (inl here)) differ =
    let same = ap (λ (u : ApprovalTicket). u.ticket_id) here in absurd (ground arith)

-- A list in which the ticket stands for its id is left as it is.
replace-fixed :
    (replaced : Bool) (approvals : List ApprovalTicket) (ticket : ApprovalTicket)
    → (replaced ≡ true) ⊎ Any (λ t. t ≡ ticket) approvals
    → All (λ t. t.ticket_id ≡ ticket.ticket_id → t ≡ ticket) approvals
    → replace_approval replaced approvals ticket ≡ approvals
unfolding replace_approval
replace-fixed replaced [] ticket (inl done) same = rw done refl
replace-fixed replaced [] ticket (inr h) same = absurd h
replace-fixed replaced (t ∷ approvals) ticket h (first, rest) =
    elim (Bool-cases (t.ticket_id == ticket.ticket_id)) [
      | inl same ↦ rw same (
          ap₂ (λ (x : ApprovalTicket) (xs : List ApprovalTicket). x ∷ xs)
            (sym (first (ground arith))) (replace-fixed true approvals ticket (inl refl) rest))
      | inr differ ↦ rw differ (
          ap (λ (xs : List ApprovalTicket). t ∷ xs)
            (replace-fixed replaced approvals ticket (later replaced t ticket approvals h differ)
              rest))
    ]

-- The updated contract differs in its tickets alone, and there the ticket has taken its id over:
-- every other id keeps its tickets.
pub record IsAttached (c : Contract) (ticket : ApprovalTicket) (updated : Contract) : Type 0 where
  pub only_approvals : updated ≡ record c { approvals = updated.approvals }
  pub present : Any (λ t. t ≡ ticket) updated.approvals
  pub alone : All (λ t. t.ticket_id ≡ ticket.ticket_id → t ≡ ticket) updated.approvals
  pub kept : others ticket.ticket_id updated.approvals ≡ others ticket.ticket_id c.approvals

module _ (host : Host) (ticket_schema : ApprovalTicket → Bool) (contract_schema : Contract → Bool)
    (task_schema : Task → Bool) where
  attach_parts :
      (c updated : Contract) (ticket : ApprovalTicket)
      → attach host ticket_schema contract_schema task_schema c ticket ≡ ok updated
      → (updated ≡ record c { approvals = append_or_replace_approval c.approvals ticket })
        × (validate host task_schema updated ≡ ok tt)
        × (contract_schema updated ≡ true)
        × (validate_ticket host ticket_schema ticket ≡ ok tt)
  unfolding attach
  attach_parts c updated ticket h = ground arith

  updated-IsAttached :
      (c : Contract) (ticket : ApprovalTicket)
      → IsAttached c ticket (record c { approvals = append_or_replace_approval c.approvals ticket })
  unfolding append_or_replace_approval
  updated-IsAttached c ticket = record {
    only_approvals = refl;
    present = replace-Any c.approvals ticket;
    alone = replace-same false c.approvals ticket;
    kept = replace-others false c.approvals ticket;
  }

  -- Attaching a ticket gives a contract that is well formed, holds the ticket, holds no other ticket
  -- of its id, and keeps the tickets of all other ids and everything else as they were.
  pub attach-IsAttached :
      (c : Contract) (ticket : ApprovalTicket) (updated : Contract)
      → attach host ticket_schema contract_schema task_schema c ticket ≡ ok updated
      → IsWellFormed updated × IsAttached c ticket updated
  attach-IsAttached c ticket updated h =
      let (shape, valid, _, _) = attach_parts c updated ticket h in
      (
        validate-IsWellFormed host task_schema updated valid,
        subst (λ (u : Contract). IsAttached c ticket u) (sym shape) (updated-IsAttached c ticket),
      )

  append_or_replace-again :
      (approvals : List ApprovalTicket) (ticket : ApprovalTicket)
      → append_or_replace_approval (append_or_replace_approval approvals ticket) ticket
        ≡ append_or_replace_approval approvals ticket
  unfolding append_or_replace_approval
  append_or_replace-again approvals ticket =
      replace-fixed false (replace_approval false approvals ticket) ticket
        (inr (replace-Any approvals ticket)) (replace-same false approvals ticket)

  attach_valid :
      (c : Contract) (ticket : ApprovalTicket) (updated : Contract)
      → record c { approvals = append_or_replace_approval c.approvals ticket } ≡ updated
      → validate host task_schema updated ≡ ok tt
      → contract_schema updated ≡ true
      → validate_ticket host ticket_schema ticket ≡ ok tt
      → attach host ticket_schema contract_schema task_schema c ticket ≡ ok updated
  unfolding attach
  attach_valid c ticket updated shape valid schema ticket_valid =
      rw (shape, ticket_valid, schema, valid) refl

  -- Attaching the same ticket once more changes nothing.
  attach-attach :
      (c : Contract) (ticket : ApprovalTicket) (updated : Contract)
      → attach host ticket_schema contract_schema task_schema c ticket ≡ ok updated
      → attach host ticket_schema contract_schema task_schema updated ticket ≡ ok updated
  attach-attach c ticket updated h =
      let (shape, valid, schema, ticket_valid) = attach_parts c updated ticket h in
      let again : record updated { approvals = append_or_replace_approval updated.approvals ticket }
          ≡ updated =
        subst
          (λ (u : Contract).
            record u { approvals = append_or_replace_approval u.approvals ticket } ≡ u)
          (sym shape)
          (ap (λ (ts : List ApprovalTicket). record c { approvals = ts })
            (append_or_replace-again c.approvals ticket)) in
      attach_valid updated ticket updated again valid schema ticket_valid

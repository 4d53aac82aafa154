-- ===== src/Policy/Evaluator/Revocation.antt =====
-- Revoking a ticket only takes authority away, and takes away all that rested on the ticket.
use ao_covenant.Base.{
  ℕ, String, true, List, [], ◌∷◌, ◌≡◌, ◌≢◌, inl, inr, arith, First, sym, ap, ◌∙◌,
}
use ao_covenant.Base.Dict
use ao_covenant.Base.Dict.{has, has-insert}
use ao_covenant.Text.{Host}
use ao_covenant.Policy.Types.{ActionRef, ApprovalTicket, Input, decision_allow}
use ao_covenant.Policy.Evaluator.{evaluate_action, evaluation_time}
use ao_covenant.Paths.{slash_clean}
use ao_covenant.Policy.Evaluator.Tickets.{Covers}
use ao_covenant.Policy.Evaluator.Authority.{Ticketed, Authorised, write, read, ticketed, claim}
use ao_covenant.Policy.Evaluator.Authority.Sound.{allow-Authorised}
use ao_covenant.Policy.Evaluator.Authority.Complete.{Authorised-allow}

-- The input with one more ticket id revoked.
abbrev pub revoke : String → Input → Input
revoke id input = record input {
  revoked_approval_ticket_ids = Dict.insert id true input.revoked_approval_ticket_ids;
}

First-unique :
    (P : ApprovalTicket → Type 0) (xs : List ApprovalTicket) (s t : ApprovalTicket)
    → First P xs s
    → First P xs t
    → s ≡ t
First-unique P (x ∷ xs) s t (inl (p, e)) (inl (q, f)) = e ∙ sym f
First-unique P (x ∷ xs) s t (inl (p, e)) (inr (n, f)) = absurd (n p)
First-unique P (x ∷ xs) s t (inr (n, f)) (inl (p, e)) = absurd (n p)
First-unique P (x ∷ xs) s t (inr (m, f)) (inr (n, g)) = First-unique P xs s t f g
First-unique P [] s t h k = absurd h

module _ (host : Host) (input : Input) (now : ℕ) (action : ActionRef) (id : String) where
  Ticketed-revoke :
      (ticket : ApprovalTicket)
      → Ticketed host (revoke id input) now action ticket
      → Ticketed host input now action ticket × (ticket.ticket_id ≢ id)
  unfolding evaluation_time
  Ticketed-revoke ticket t =
      let fresh = has-insert id ticket.ticket_id true input.revoked_approval_ticket_ids in
      (
        record { first = t.first; unexpired = t.unexpired; not_revoked = ground (arith, fresh) },
        λ e. ground (arith, fresh),
      )

  Authorised-revoke :
      (used : String)
      → Authorised host (revoke id input) now action used
      → Authorised host input now action used
  Authorised-revoke used (write type declared e) = write type declared e
  Authorised-revoke used (read type declared e) = read type declared e
  Authorised-revoke used (ticketed ticket type t e) =
      ticketed ticket type (Ticketed-revoke ticket t).0 e
  Authorised-revoke used (claim ticket type t evidence e) =
      claim ticket type (Ticketed-revoke ticket t).0 evidence e

  -- What is allowed after one more revocation was allowed before it.
  allow-revoke :
      (evaluate_action host (revoke id input) now action).decision ≡ decision_allow
      → (evaluate_action host input now action).decision ≡ decision_allow
  allow-revoke h =
      let (strict, authority) = allow-Authorised host (revoke id input) now action h in
      Authorised-allow host input now action _ strict (Authorised-revoke _ authority)

  -- The ticket that an authority for anything but a file rests on.
  ticket_of :
      (used : String)
      → action.type ≢ "file.write"
      → action.type ≢ "file.read"
      → Authorised host input now action used
      → (ticket : ApprovalTicket) × Ticketed host input now action ticket
        × (used ≡ ticket.ticket_id)
  ticket_of used no_write no_read (write type _ _) = absurd (no_write type)
  ticket_of used no_write no_read (read type _ _) = absurd (no_read type)
  ticket_of used no_write no_read (ticketed ticket _ t e) = (ticket, t, e)
  ticket_of used no_write no_read (claim ticket _ t _ e) = (ticket, t, e)

module _ (host : Host) (input : Input) (now : ℕ) (action : ActionRef) where
  -- An allowed action other than a file access is no longer allowed once the ticket that its
  -- verdict names is revoked, even where another ticket covers it too.
  pub revoke-stops :
      action.type ≢ "file.write"
      → action.type ≢ "file.read"
      → (evaluate_action host input now action).decision ≡ decision_allow
      → let id = (evaluate_action host input now action).ticket_id in
        (evaluate_action host (revoke id input) now action).decision ≢ decision_allow
  revoke-stops no_write no_read before after =
      let id : String = (evaluate_action host input now action).ticket_id in
      let (_, authority) = allow-Authorised host input now action before in
      let (_, still) = allow-Authorised host (revoke id input) now action after in
      let (s, s_holds, s_id) = ticket_of host input now action id id no_write no_read authority in
      let (t, t_holds, _) =
        ticket_of host (revoke id input) now action id _ no_write no_read still in
      let (t_held, t_ne_id) = Ticketed-revoke host input now action id t t_holds in
      let same =
        First-unique (Covers input.task_id action.type (slash_clean action.resource))
          input.approvals t s t_held.first s_holds.first in
      t_ne_id (ap (λ (x : ApprovalTicket). x.ticket_id) same ∙ sym s_id)

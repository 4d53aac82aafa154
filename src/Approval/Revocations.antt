-- ===== src/Approval/Revocations.antt =====
-- Lists of revoked tickets.
use ao_covenant.Base.{
  String, Bool, true, false, List, [], ◌∷◌, map, ◌≡◌, ◌≢◌, ◌⊎◌, ◌↔◌, inl, arith, ok, All, Any,
  contains_string,
}
use ao_covenant.Base.Dict.{Dict, insert, has, has-insert, lookup}
use ao_covenant.Text.{trim_space}
use ao_covenant.Contract.Validate.Loops.{Nodup, Fresh, Fresh-Nodup}
use ao_covenant.Approval.{
  RevokedTicket, RevocationList, check_revoked_tickets, validate_revocation_list, add_revoked,
  add_revoked_lists, revoked_ticket_ids,
}

-- The list revokes the id.
abbrev pub Revokes : String → RevocationList → Type 0
Revokes id list = Any (λ r. r.ticket_id ≡ id) list.revoked_tickets

add_revoked-has :
    (ids : Dict Bool) (tickets : List RevokedTicket) (id : String)
    → (has (add_revoked ids tickets) id ≡ true)
      ↔ ((has ids id ≡ true) ⊎ Any (λ r. r.ticket_id ≡ id) tickets)
unfolding add_revoked
add_revoked-has ids [] id = (λ h. inl h, λ h. ground arith)
add_revoked-has ids (r ∷ tickets) id =
    let step = has-insert r.ticket_id id true ids in
    let ih = add_revoked-has (insert r.ticket_id true ids) tickets id in
    (λ h. ground (arith, ih, step), λ h. ground (arith, ih, step))

add_revoked_lists-has :
    (ids : Dict Bool) (lists : List RevocationList) (id : String)
    → (has (add_revoked_lists ids lists) id ≡ true) ↔ ((has ids id ≡ true) ⊎ Any (Revokes id) lists)
unfolding add_revoked_lists
add_revoked_lists-has ids [] id = (λ h. inl h, λ h. ground arith)
add_revoked_lists-has ids (list ∷ lists) id =
    let step = add_revoked-has ids list.revoked_tickets id in
    let ih = add_revoked_lists-has (add_revoked ids list.revoked_tickets) lists id in
    (λ h. ground (arith, ih, step), λ h. ground (arith, ih, step))

-- The combined map holds a ticket id exactly when some list revokes that id.
pub revoked_ticket_ids-Revokes :
    (lists : List RevocationList) (id : String)
    → (has (revoked_ticket_ids lists) id ≡ true) ↔ Any (Revokes id) lists
unfolding revoked_ticket_ids has lookup
revoked_ticket_ids-Revokes lists id =
    let all = add_revoked_lists-has [] lists id in
    (λ h. ground (arith, all), λ h. ground (arith, all))

-- The id is its own trimmed text, it is not empty, and a reason is given.
abbrev pub IsStated : RevokedTicket → Type 0
IsStated r =
    (trim_space r.ticket_id ≡ r.ticket_id) × (r.ticket_id ≢ "") × (trim_space r.reason ≢ "")

check-Stated :
    (seen : List String) (tickets : List RevokedTicket)
    → check_revoked_tickets seen tickets ≡ ok tt
    → All IsStated tickets × Fresh seen (map (λ r. r.ticket_id) tickets)
unfolding check_revoked_tickets
check-Stated seen [] h = (tt, tt)
check-Stated seen (r ∷ tickets) h =
    let (trimmed, named, fresh, reason, rest) : (trim_space r.ticket_id ≡ r.ticket_id)
        × (r.ticket_id ≢ "")
        × (contains_string seen r.ticket_id ≡ false)
        × (trim_space r.reason ≢ "")
        × (check_revoked_tickets (r.ticket_id ∷ seen) tickets ≡ ok tt) =
      ground arith in
    let (stated, more) = check-Stated (r.ticket_id ∷ seen) tickets rest in
    (((trimmed, named, reason), stated), (fresh, more))

-- A revocation list that validates has entries with a reason and an id that is not empty and has no
-- white space around it, and no id twice.
pub validate_revocations-Nodup :
    (revocations_schema : RevocationList → Bool) (list : RevocationList)
    → validate_revocation_list revocations_schema list ≡ ok tt
    → All IsStated list.revoked_tickets × Nodup (map (λ r. r.ticket_id) list.revoked_tickets)
unfolding validate_revocation_list
validate_revocations-Nodup revocations_schema list h =
    let checked : check_revoked_tickets [] list.revoked_tickets ≡ ok tt = ground arith in
    let (stated, fresh) = check-Stated [] list.revoked_tickets checked in
    (stated, Fresh-Nodup [] (map (λ r. r.ticket_id) list.revoked_tickets) fresh)

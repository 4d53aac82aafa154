-- ===== src/Approval.antt =====
-- internal/approval: the tickets that an operator makes, attaches to a contract and revokes.
--
-- The JSON-schema checks are arguments: `ticket_schema`, `revocations_schema` and `contract_schema`.
pub mod Fragment
pub mod Attach
pub mod Revocations
use Prim.Native.Char.{Char, code}
use ao_covenant.Base.{
  String, ◌<>◌, Bool, true, false, not, ◌&&◌, ◌||◌, Option, none, some, List, [], ◌∷◌, eqb, ◌==◌,
  if◌then◌else◌, Outcome, ok, err, ◌>>=◌, ◌>>◌, fail_if, contains_string, ◌≡◌, refl,
}
use ao_covenant.Base.Dict.{Dict, insert}
use ao_covenant.Text.{Host, trim_space, to_lower, is_id_rune}
use ao_covenant.Policy.Types.{ApprovalTicket, approval_ticket_schema_version}
use ao_covenant.Contract.Types.{Contract, Task}
use ao_covenant.Contract.Validate.{validate}
use ao_covenant.Contract.Validate as ContractValidate

pub record CreateInput : Type 0 where
  pub ticket_id : String
  pub task_id : String
  pub effect_type : String
  pub resource : String
  pub approved : Bool
  pub reason : String
  pub operator_id : String
  pub expires_at : String

pub record RevokedTicket : Type 0 where
  pub ticket_id : String
  pub reason : String

pub record RevocationList : Type 0 where
  pub schema_version : String
  pub revoked_tickets : List RevokedTicket

pub data Error : Type 0 where
  expires_at_invalid ticket_schema_invalid : (ticket_id : String) → Error
  contract_schema_invalid : Error
  contract_invalid : ContractValidate.Error → Error
  revocations_schema_invalid : Error
  revoked_id_required : Error
  revoked_id_has_whitespace duplicate_revoked_id revoked_reason_required :
      (ticket_id : String) → Error

-- A rune that the loop of `portableFragment` turns into a hyphen; trimming and lower-casing leave
-- the other kinds of white space to the underscore.
abbrev is_blank : Char → Bool
is_blank c = let n = code c in eqb n 32 || eqb n 9 || eqb n 10 || eqb n 13

-- The loop, with `lastHyphen` and `lastUnderscore`.
unfoldable pub fragment_runes : Bool → Bool → String → String
fragment_runes last_hyphen last_underscore String.[] = ""
fragment_runes last_hyphen last_underscore (String.◌∷◌ c s) =
    let kept = fragment_runes false false s in
    let hyphen = fragment_runes true false s in
    let underscore = fragment_runes false true s in
    let skipped = fragment_runes last_hyphen last_underscore s in
    if is_id_rune c
    then String.◌∷◌ c kept
    else if is_blank c
    then (if last_hyphen then skipped else String.◌∷◌ "-" hyphen)
    else if last_underscore
    then skipped
    else String.◌∷◌ "_" underscore

-- `strings.Trim(s, "_-")`
abbrev is_joiner : Char → Bool
is_joiner c = eqb (code c) 95 || eqb (code c) 45

unfoldable pub trim_joiners_left : String → String
trim_joiners_left String.[] = ""
trim_joiners_left (String.◌∷◌ c s) =
    let rest = trim_joiners_left s in if is_joiner c then rest else String.◌∷◌ c s

unfoldable pub trim_joiners_right : String → String
trim_joiners_right String.[] = ""
trim_joiners_right (String.◌∷◌ c s) =
    let rest = trim_joiners_right s in if rest == "" && is_joiner c then "" else String.◌∷◌ c rest

-- `appendOrReplaceApproval`: whether the loop has replaced a ticket decides the end.
unfoldable pub replace_approval : Bool → List ApprovalTicket → ApprovalTicket → List ApprovalTicket
replace_approval replaced [] ticket = if replaced then [] else ticket ∷ []
replace_approval replaced (existing ∷ approvals) ticket =
    let same = replace_approval true approvals ticket in
    let other = replace_approval replaced approvals ticket in
    if existing.ticket_id == ticket.ticket_id then ticket ∷ same else existing ∷ other

unfoldable pub append_or_replace_approval :
    List ApprovalTicket → ApprovalTicket → List ApprovalTicket
unfolding replace_approval
append_or_replace_approval = replace_approval false

abbrev lift_contract : Outcome ContractValidate.Error (Unit {0}) → Outcome Error (Unit {0})
lift_contract (ok done) = ok done
lift_contract (err e) = err (contract_invalid e)

module _ (host : Host) where
  unfoldable pub portable_fragment : String → String
  unfolding fragment_runes trim_joiners_left trim_joiners_right
  portable_fragment raw =
      trim_joiners_right
        (trim_joiners_left (fragment_runes false false (to_lower host (trim_space raw))))

  unfoldable pub default_ticket_id : String → String → String → String
  unfolding portable_fragment
  default_ticket_id task_id effect_type resource =
      "approval-"
      <> (portable_fragment task_id
          <> ("-" <> (portable_fragment effect_type <> ("-" <> portable_fragment resource))))

  abbrev expiry_fails : String → Bool
  expiry_fails expires_at = elim (host.parse_time expires_at) [ none ↦ true | some at ↦ false ]

  unfoldable pub created_ticket : CreateInput → ApprovalTicket
  created_ticket input =
      let given = trim_space input.ticket_id in
      record {
        schema_version = approval_ticket_schema_version;
        ticket_id =
            if given == ""
            then default_ticket_id input.task_id input.effect_type input.resource
            else given;
        task_id = trim_space input.task_id;
        effect_type = trim_space input.effect_type;
        resource = trim_space input.resource;
        approved = input.approved;
        reason = trim_space input.reason;
        operator_id = trim_space input.operator_id;
        expires_at = trim_space input.expires_at;
      }

  module _ (ticket_schema : ApprovalTicket → Bool) where
    unfoldable pub validate_ticket : ApprovalTicket → Outcome Error (Unit {0})
    validate_ticket ticket = do
      fail_if (not (trim_space ticket.expires_at == "") && expiry_fails ticket.expires_at)
          (expires_at_invalid ticket.ticket_id)
      fail_if (not (ticket_schema ticket)) (ticket_schema_invalid ticket.ticket_id)

    unfoldable pub create : CreateInput → Outcome Error ApprovalTicket
    unfolding created_ticket validate_ticket
    create input = let ticket = created_ticket input in validate_ticket ticket >> ok ticket

    module _ (contract_schema : Contract → Bool) (task_schema : Task → Bool) where
      unfoldable pub attach : Contract → ApprovalTicket → Outcome Error Contract
      attach c ticket =
          let updated = record c { approvals = append_or_replace_approval c.approvals ticket } in
          validate_ticket ticket
          >> fail_if (not (contract_schema updated)) contract_schema_invalid
          >> lift_contract (validate host task_schema updated)
          >> ok updated

      unfoldable pub validate_against_contract :
          Contract → ApprovalTicket → Outcome Error (Unit {0})
      unfolding attach
      validate_against_contract c ticket =
          validate_ticket ticket >> (attach c ticket >>= λ updated. ok tt)

-- The loop of `ValidateRevocationList`, with the ids seen so far.
unfoldable pub check_revoked_tickets : List String → List RevokedTicket → Outcome Error (Unit {0})
check_revoked_tickets seen [] = ok tt
check_revoked_tickets seen (revoked ∷ rest) =
    let id = trim_space revoked.ticket_id in
    do
      fail_if (id == "") revoked_id_required
      fail_if (not (id == revoked.ticket_id)) (revoked_id_has_whitespace revoked.ticket_id)
      fail_if (contains_string seen id) (duplicate_revoked_id id)
      fail_if (trim_space revoked.reason == "") (revoked_reason_required id)
      check_revoked_tickets (id ∷ seen) rest

unfoldable pub validate_revocation_list :
    (RevocationList → Bool) → RevocationList → Outcome Error (Unit {0})
unfolding check_revoked_tickets
validate_revocation_list revocations_schema list =
    fail_if (not (revocations_schema list)) revocations_schema_invalid
    >> check_revoked_tickets [] list.revoked_tickets

-- The inner and the outer loop of `RevokedTicketIDs`.
unfoldable pub add_revoked : Dict Bool → List RevokedTicket → Dict Bool
add_revoked ids [] = ids
add_revoked ids (revoked ∷ rest) = add_revoked (insert revoked.ticket_id true ids) rest

unfoldable pub add_revoked_lists : Dict Bool → List RevocationList → Dict Bool
unfolding add_revoked
add_revoked_lists ids [] = ids
add_revoked_lists ids (list ∷ lists) =
    add_revoked_lists (add_revoked ids list.revoked_tickets) lists

unfoldable pub revoked_ticket_ids : List RevocationList → Dict Bool
unfolding add_revoked_lists
revoked_ticket_ids = add_revoked_lists []

fragment_test : fragment_runes false false "make test//release" ≡ "make-test_release"
unfolding fragment_runes is_id_rune
fragment_test = refl

-- ===== src/Tests/Approvals.antt =====
-- Attaching a ticket to the sample contract, and lists of revoked tickets.
use ao_covenant.Base.{true, none, [], ◌∷◌, ◌≡◌, ◌↔◌, refl, ok, each, string_dec, Any, All, map}
use ao_covenant.Base.Dict.{has}
use ao_covenant.Text.{trim_space, map_runes, is_id_rune}
use ao_covenant.Paths.{slash_clean, escapes, has_windows_drive_prefix}
use ao_covenant.Policy.Types.{ApprovalTicket}
use ao_covenant.Contract.Types.{Contract}
use ao_covenant.Contract.Graph.{has_cycle}
use ao_covenant.Contract.Validate
use ao_covenant.Contract.Validate.{validate, first_invalid}
use ao_covenant.Contract.Validate.Loops.{Nodup}
use ao_covenant.Contract.Validate.Sound.{IsWellFormed}
use ao_covenant.Approval.{
  attach, append_or_replace_approval, validate_ticket, RevocationList, revoked_ticket_ids,
  check_revoked_tickets, validate_revocation_list, default_ticket_id,
}
use ao_covenant.Approval.Attach.{IsAttached, attach-IsAttached}
use ao_covenant.Approval.Revocations.{
  Revokes, IsStated, revoked_ticket_ids-Revokes, validate_revocations-Nodup,
}
use ao_covenant.Approval.Fragment.{default_ticket_id-first_invalid}
use ao_covenant.Tests.Samples.{host, contract, ticket}

-- The ticket with another reason takes the place of the one that the contract has.
abbrev renewed : ApprovalTicket
renewed = record ticket { reason = "approved for one more run" }

abbrev updated : Contract
updated = record contract { approvals = renewed ∷ [] }

attached : attach host (λ t. true) (λ c. true) (λ t. true) contract renewed ≡ ok updated
unfolding attach append_or_replace_approval validate_ticket validate Validate.validate_relative_path
    Validate.validate_paths each Validate.validate_obligations Validate.validate_public_id
    Validate.validate_tasks Validate.validate_task Validate.validate_effect
    Validate.validate_approvals Validate.validate_approval Validate.validate_dependencies
    Validate.required_ids Validate.known_or first_invalid Validate.declared_effects
    Validate.side_effect_key Validate.allowed_task_kind Validate.allowed_side_effect_type
    Validate.is_reserved_windows_name trim_space slash_clean escapes has_windows_drive_prefix
    is_id_rune map_runes has_cycle has string_dec
attached = refl

attach-IsAttached_example : IsWellFormed updated × IsAttached contract renewed updated
attach-IsAttached_example =
    attach-IsAttached host (λ t. true) (λ c. true) (λ t. true) contract renewed updated attached

abbrev revocations : RevocationList
revocations = record {
  schema_version = "covenant.approval-revocations.v1";
  revoked_tickets =
      record { ticket_id = "ticket_process"; reason = "withdrawn" }
      ∷ record { ticket_id = "ticket_other"; reason = "withdrawn" }
      ∷ [];
}

revoked_ticket_ids-Revokes_example :
    (has (revoked_ticket_ids (revocations ∷ [])) "ticket_other" ≡ true)
    ↔ Any (Revokes "ticket_other") (revocations ∷ [])
revoked_ticket_ids-Revokes_example = revoked_ticket_ids-Revokes (revocations ∷ []) "ticket_other"

revocations_valid : validate_revocation_list (λ l. true) revocations ≡ ok tt
unfolding validate_revocation_list check_revoked_tickets trim_space string_dec
revocations_valid = refl

validate_revocations-Nodup_example :
    All IsStated revocations.revoked_tickets
    × Nodup (map (λ r. r.ticket_id) revocations.revoked_tickets)
validate_revocations-Nodup_example =
    validate_revocations-Nodup (λ l. true) revocations revocations_valid

default_ticket_id-first_invalid_example :
    first_invalid (default_ticket_id host "scripted_change" "process.spawn" "make test//release")
    ≡ none
default_ticket_id-first_invalid_example =
    default_ticket_id-first_invalid host "scripted_change" "process.spawn" "make test//release"

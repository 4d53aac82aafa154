-- ===== src/Tests/Decisions.antt =====
-- Decisions of the policy engine.
use text.Mathlib.TextEquality.{eq_iff}
use ao_covenant.Base.{◌≡◌, ◌≢◌, refl, inl, inr, arith, string_dec}
use ao_covenant.Base.Dict.{has}
use ao_covenant.Paths.{slash_clean}
use ao_covenant.Policy.Types.{decision_allow}
use ao_covenant.Policy.Evaluator.{
  evaluate_action, evaluation_time, matching_approved_ticket, expiry_status,
}
use ao_covenant.Policy.Evaluator.Authority.{Authorised, ticketed}
use ao_covenant.Policy.Evaluator.Authority.Sound.{allow-Authorised}
use ao_covenant.Policy.Evaluator.Authority.Complete.{Authorised-allow}
use ao_covenant.Policy.Evaluator.Revocation.{revoke, revoke-stops}
use ao_covenant.Tests.Samples.{host, input, command, ticket}

command_allowed : (evaluate_action host input 5 command).decision ≡ decision_allow
unfolding evaluate_action evaluation_time matching_approved_ticket expiry_status has slash_clean
    string_dec
command_allowed = refl

allow-Authorised_example :
    (input.mode ≡ "strict") × Authorised host input 5 command "ticket_process"
unfolding evaluate_action evaluation_time matching_approved_ticket expiry_status has slash_clean
    string_dec
allow-Authorised_example = allow-Authorised host input 5 command command_allowed

command-Authorised : Authorised host input 5 command "ticket_process"
unfolding evaluation_time slash_clean has string_dec
command-Authorised =
    ticketed ticket (inr refl)
      (record {
        first = inl (
          record { same_task = refl; same_effect = refl; same_resource = refl; is_approved = refl },
          refl,
        );
        unexpired = inr (1000, refl, omega arith);
        not_revoked = refl;
      })
      refl

Authorised-allow_example : (evaluate_action host input 5 command).decision ≡ decision_allow
Authorised-allow_example =
    Authorised-allow host input 5 command "ticket_process" refl command-Authorised

not_write : command.type ≢ "file.write"
not_write = ground (arith, eq_iff "process.spawn" "file.write")

not_read : command.type ≢ "file.read"
not_read = ground (arith, eq_iff "process.spawn" "file.read")

revoke-stops_example :
    (evaluate_action host (revoke "ticket_process" input) 5 command).decision ≢ decision_allow
unfolding evaluate_action evaluation_time matching_approved_ticket expiry_status has slash_clean
    string_dec
revoke-stops_example = revoke-stops host input 5 command not_write not_read command_allowed

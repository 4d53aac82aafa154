-- ===== src/Policy/Explain.antt =====
-- internal/policy/explain.go
use ao_covenant.Base.{String, ◌<>◌, ◌||◌, not, List, map, ◌==◌, if◌then◌else◌}
use ao_covenant.Text.{has_prefix}
use ao_covenant.Policy.Types.{Decision, decision_allow, decision_deny}

pub record Explanation : Type 0 where
  pub decision_id : String
  pub task_id : String
  pub effect_type : String
  pub resource : String
  pub decision : String
  pub reason : String
  pub approval_ticket_id : String
  pub summary : String
  pub detail : String
  pub operator_action : String

unfoldable pub operator_action_for_deny : Decision → String
operator_action_for_deny decision =
    if has_prefix decision.reason "unsupported policy mode"
    then "use strict policy mode"
    else if decision.effect_type == "file.write"
    then "add the resource to workspace.writes or remove the task side effect"
    else if decision.effect_type == "file.read"
    then "add the resource to workspace.reads or remove the task side effect"
    else if decision.effect_type == "network.request" || decision.effect_type == "process.spawn"
    then "attach an approved ticket matching task, effect, and resource"
    else if decision.effect_type == "claim.publish"
    then (if decision.resource == "full-autonomous-self-mutating-rsi"
        then "attach an approved full-RSI evidence ticket or downgrade to claim_level=bounded_governed_rsi"
        else "attach an approved ticket matching task, effect, and resource")
    else "use a supported side effect type or remove the task side effect"

unfoldable pub decision_verb : String → String
decision_verb decision =
    if decision == decision_allow
    then "allowed"
    else if decision == decision_deny
    then "denied"
    else decision

unfoldable pub explain_decision : Decision → Explanation
explain_decision d =
    let detail =
      "Task "
      <> (d.task_id
          <> (" requested "
              <> (d.effect_type
                  <> (" on "
                      <> (d.resource
                          <> (". Policy decision: "
                              <> (d.decision <> (". Reason: " <> (d.reason <> "."))))))))) in
    record {
      decision_id = d.decision_id;
      task_id = d.task_id;
      effect_type = d.effect_type;
      resource = d.resource;
      decision = d.decision;
      reason = d.reason;
      approval_ticket_id = d.approval_ticket_id;
      summary = decision_verb d.decision <> (" " <> (d.effect_type <> (" on " <> d.resource)));
      detail =
          if not (d.approval_ticket_id == "")
          then detail <> (" Approval ticket: " <> (d.approval_ticket_id <> "."))
          else detail;
      operator_action = if d.decision == decision_deny then operator_action_for_deny d else "";
    }

unfoldable pub explain_decisions : List Decision → List Explanation
explain_decisions = map explain_decision

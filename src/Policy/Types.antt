-- ===== src/Policy/Types.antt =====
-- internal/policy/types.go: what the policy engine is given and what it returns.
use ao_covenant.Base.{ℕ, String, Bool, false, List}
use ao_covenant.Base.Dict.{Dict}

abbrev pub approval_ticket_schema_version : String
approval_ticket_schema_version = "covenant.approval-ticket.v1"

abbrev pub decision_schema_version : String
decision_schema_version = "covenant.policy-decision.v1"

abbrev pub decision_allow : String
decision_allow = "allow"

abbrev pub decision_deny : String
decision_deny = "deny"

pub record ActionRef : Type 0 where
  pub type : String
  pub resource : String

pub record ApprovalTicket : Type 0 where
  pub schema_version : String
  pub ticket_id : String
  pub task_id : String
  pub effect_type : String
  pub resource : String
  pub approved : Bool
  pub reason : String
  pub operator_id : String
  pub expires_at : String

-- Go's zero value of the ticket.
abbrev pub no_ticket : ApprovalTicket
no_ticket = record {
  schema_version = "";
  ticket_id = "";
  task_id = "";
  effect_type = "";
  resource = "";
  approved = false;
  reason = "";
  operator_id = "";
  expires_at = "";
}

-- A time is the number of nanoseconds since Go's zero time, so `IsZero` is a comparison with 0.
pub record Input : Type 0 where
  pub mode : String
  pub workspace_reads : List String
  pub workspace_writes : List String
  pub task_id : String
  pub actions : List ActionRef
  pub approvals : List ApprovalTicket
  pub evaluation_time : ℕ
  pub revoked_approval_ticket_ids : Dict Bool

pub record Decision : Type 0 where
  pub schema_version : String
  pub decision_id : String
  pub task_id : String
  pub effect_type : String
  pub resource : String
  pub decision : String
  pub reason : String
  pub approval_ticket_id : String

-- ===== src/Contract/Types.antt =====
-- internal/contract/types.go. `timeout_secs` is a Go int; only its sign is ever read, so it is an
-- integer given by its two constructors.
use ao_covenant.Integers.{ℤ}
use ao_covenant.Base.{String, Bool, List}
use ao_covenant.Policy.Types.{ApprovalTicket, ActionRef}

abbrev pub contract_schema_version : String
contract_schema_version = "covenant.contract.v1"

pub record WorkspaceScope : Type 0 where
  pub root : String
  pub reads : List String
  pub writes : List String

pub record Obligation : Type 0 where
  pub id : String
  pub text : String
  pub required : Bool

-- The contract's own `ActionRef` has the fields of the policy's.
pub record Task : Type 0 where
  pub id : String
  pub kind : String
  pub adapter : String
  pub depends_on : List String
  pub obligations : List String
  pub timeout_secs : ℤ
  pub declared_side_effects : List ActionRef

pub record PolicyProfile : Type 0 where
  pub mode : String

pub record EvaluatorRules : Type 0 where
  pub required_obligations : List String

pub record Contract : Type 0 where
  pub schema_version : String
  pub objective : String
  pub workspace : WorkspaceScope
  pub obligations : List Obligation
  pub tasks : List Task
  pub policy : PolicyProfile
  pub approvals : List ApprovalTicket
  pub evaluator : EvaluatorRules

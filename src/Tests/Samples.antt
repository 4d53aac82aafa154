-- ===== src/Tests/Samples.antt =====
-- Inputs that the tests share: an approved ticket for the test command of one task, the contract
-- that declares the command, and a host whose functions are given on the texts that occur.
use Prim.Native.Char.{Char, code}
use ao_covenant.Base.{◌<>◌, true, none, some, [], ◌∷◌, eqb, ◌==◌, if◌then◌else◌}
use ao_covenant.Text.{Host}
use ao_covenant.Policy.Types.{ActionRef, ApprovalTicket, Input, approval_ticket_schema_version}
use ao_covenant.Integers.{pos}
use ao_covenant.Contract.Types.{Task, Contract, contract_schema_version}

-- The part of `unicode.ToLower` that these texts use.
abbrev pub lower_sample : Char → Char
lower_sample c =
    if eqb (code c) 82
    then "r"
    else if eqb (code c) 77
    then "m"
    else if eqb (code c) 76
    then "l"
    else c

abbrev pub host : Host
host = record {
  lower_rune = lower_sample;
  quote = λ s. "\"" <> (s <> "\"");
  parse_time = λ s. if s == "2099-01-02T03:04:05Z" then some 1000 else none;
}

abbrev pub command : ActionRef
command = record { type = "process.spawn"; resource = "./make-test" }

abbrev pub ticket : ApprovalTicket
ticket = record {
  schema_version = approval_ticket_schema_version;
  ticket_id = "ticket_process";
  task_id = "scripted_change";
  effect_type = "process.spawn";
  resource = "make-test";
  approved = true;
  reason = "operator approved local test command";
  operator_id = "operator_alice";
  expires_at = "2099-01-02T03:04:05Z";
}

abbrev pub input : Input
input = record {
  mode = "strict";
  workspace_reads = "brief.md" ∷ [];
  workspace_writes = [];
  task_id = "scripted_change";
  actions = command ∷ [];
  approvals = ticket ∷ [];
  evaluation_time = 0;
  revoked_approval_ticket_ids = [];
}

abbrev pub task : Task
task = record {
  id = "scripted_change";
  kind = "scripted";
  adapter = "local";
  depends_on = [];
  obligations = "change" ∷ [];
  timeout_secs = pos 60;
  declared_side_effects = command ∷ [];
}

abbrev pub review : Task
review = record {
  id = "review";
  kind = "review";
  adapter = "local";
  depends_on = "scripted_change" ∷ [];
  obligations = [];
  timeout_secs = pos 60;
  declared_side_effects = [];
}

abbrev pub contract : Contract
contract = record {
  schema_version = contract_schema_version;
  objective = "Run the tests.";
  workspace = record { root = "."; reads = "brief.md" ∷ []; writes = [] };
  obligations = record { id = "change"; text = "the tests ran"; required = true } ∷ [];
  tasks = review ∷ task ∷ [];
  policy = record { mode = "strict" };
  approvals = ticket ∷ [];
  evaluator = record { required_obligations = "change" ∷ [] };
}

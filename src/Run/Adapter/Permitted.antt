-- ===== src/Run/Adapter/Permitted.antt =====
-- What a run may write and start.
use ao_covenant.Base.{
  ℕ, ◌+◌, ◌<>◌, String, Bool, true, false, ◌||◌, List, ◌≡◌, ◌⊎◌, sym, ◌∙◌, arith, ◌==◌,
  contains_string, Bool-cases, inl, inr, ok,
}
use ao_covenant.Base.Dict.{Dict}
use ao_covenant.Text.{Host, decimal, to_slash, has_prefix}
use ao_covenant.Paths.{slash_clean, escapes}
use ao_covenant.Policy.Types.{ActionRef, ApprovalTicket}
use ao_covenant.Policy.Evaluator.Authority.{
  Declared, Ticketed, Authorised, write, read, ticketed, claim,
}
use ao_covenant.Policy.Evaluator.Authority.Complete.{effect_types_differ}
use ao_covenant.Policy.Evaluator.Authority.Sound.{allow-Authorised}
use ao_covenant.Contract.Types.{Contract, Task}
use ao_covenant.Run.Executor.{policy_input}
use ao_covenant.Run.Executor.Loop.Effects.{Allowed}
use ao_covenant.Run.Adapter.{Machine, exited, fields, safe_join}

module _ {World : Type 0} (host : Host) (machine : Machine World) (root : String) where
  -- The root of the workspace, or a path below it.
  abbrev pub Inside : String → Type 0
  Inside path = (path ≡ root) ⊎ ((p : String) × (path ≡ machine.join root p) × (escapes p ≡ false))

  pub safe_join-Inside :
      (workspace_path path : String)
      → safe_join host machine root workspace_path ≡ ok path
      → Inside path
  unfolding safe_join
  safe_join-Inside workspace_path path h =
      let p = slash_clean workspace_path in
      elim (Bool-cases (p == "" || p == ".")) [
        | inl e ↦ inl (ground (arith, h))
        | inr some_path ↦ elim (Bool-cases (has_prefix (to_slash workspace_path) "//")) [
          | inl e ↦ cc (rw (some_path, e) at h)
          | inr single ↦ elim (Bool-cases (escapes p)) [
            | inl e ↦ cc (rw (some_path, single, e) at h)
            | inr within ↦ inr (p, ground (arith, h), within)
          ]
        ]
      ]

module _ {World : Type 0} (host : Host) (machine : Machine World) (root : String) (c : Contract)
    (revoked : Dict Bool) (process_allowlist : List String) where
  -- A process that a run may start: the words of a side effect that is on the operator's list and that
  -- the policy allows, under a ticket of the contract for the task.
  pub record Spawnable (task : Task) (arguments : List String) : Type 0 where
    pub action : ActionRef
    pub now : ℕ
    pub words : arguments ≡ fields action.resource
    pub type : action.type ≡ "process.spawn"
    pub listed : contains_string process_allowlist action.resource ≡ true
    pub allowed : Allowed host c revoked task now action
    pub ticket : ApprovalTicket
    pub approved : Ticketed host (policy_input c revoked task now) now action ticket

  -- The file of a stream of a process, named after the task, the number of the side effect counted from
  -- 1, and the stream.
  abbrev pub stream_resource : Task → ℕ → String → String
  stream_resource task index stream =
      ".covenant/process/"
      <> ((task.id <> "-process-" <> decimal (index + 1) <> "-" <> stream) <> ".txt")

  -- What a run may write to a file: its demonstration text, for a side effect whose file the contract
  -- declares, or what a process that it may start has printed, for the file named after the task, the
  -- side effect and the stream.
  pub data Output (resource contents : String) : Type 0 where
    demo :
        (task : Task)
        → Declared c.workspace.writes resource
        → contents
          ≡ "AO Covenant demo output\n\nobjective: " <> c.objective <> "\ntask: " <> task.id <> "\n"
        → Output resource contents
    printed :
        (task : Task) (index : ℕ) (arguments : List String) (world : World) (stdout stderr : String)
        → Spawnable task arguments
        → (machine.run_process world root arguments task.timeout_secs).1 ≡ exited stdout stderr
        → ((resource ≡ stream_resource task index "stdout") × (contents ≡ stdout))
          ⊎ ((resource ≡ stream_resource task index "stderr") × (contents ≡ stderr))
        → Output resource contents

  -- A file that a run may write, and what: it is inside the workspace.
  pub record Writable (path contents : String) : Type 0 where
    pub resource : String
    pub joined : safe_join host machine root resource ≡ ok path
    pub inside : Inside host machine root path
    pub output : Output resource contents

  pub write-Declared :
      (t : Task) (now : ℕ) (a : ActionRef)
      → Allowed host c revoked t now a
      → a.type ≡ "file.write"
      → Declared c.workspace.writes a.resource
  write-Declared t now a allowed type =
      of_cases (allow-Authorised host (policy_input c revoked t now) now a allowed).1
    where
      of_cases :
          {id : String}
          → Authorised host (policy_input c revoked t now) now a id
          → Declared c.workspace.writes a.resource
      of_cases (write is_write declared id) = declared
      of_cases (read is_read declared id) = absurd (effect_types_differ.0 (sym is_read ∙ type))
      of_cases (ticketed ticket (inl is_request) h id) =
          absurd (effect_types_differ.1 (sym is_request ∙ type))
      of_cases (ticketed ticket (inr is_spawn) h id) =
          absurd (effect_types_differ.3 (sym is_spawn ∙ type))
      of_cases (claim ticket is_claim h evidenced id) =
          absurd (effect_types_differ.5 (sym is_claim ∙ type))

  pub spawn-Ticketed :
      (t : Task) (now : ℕ) (a : ActionRef)
      → Allowed host c revoked t now a
      → a.type ≡ "process.spawn"
      → (ticket : ApprovalTicket) × Ticketed host (policy_input c revoked t now) now a ticket
  spawn-Ticketed t now a allowed type =
      of_cases (allow-Authorised host (policy_input c revoked t now) now a allowed).1
    where
      of_cases :
          {id : String}
          → Authorised host (policy_input c revoked t now) now a id
          → (ticket : ApprovalTicket) × Ticketed host (policy_input c revoked t now) now a ticket
      of_cases (write is_write declared id) = absurd (effect_types_differ.3 (sym type ∙ is_write))
      of_cases (read is_read declared id) = absurd (effect_types_differ.4 (sym type ∙ is_read))
      of_cases (ticketed ticket kind approved id) = (ticket, approved)
      of_cases (claim ticket is_claim approved evidenced id) = (ticket, approved)

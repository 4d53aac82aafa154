-- ===== src/Lib.antt =====
-- A verification library of ao-covenant: the program that compiles a brief into a contract,
-- decides its declared side effects by policy, runs its tasks behind approvals, and verifies the
-- ledger and the evidence that a run leaves.
--
-- The parts and where they are modelled, with paths from the repository's root:
--
--   Contract      internal/contract/types.go and validate.go. Contract.Validate has one function for
--                 each loop of `Validate`; Contract.Graph is `hasCycle`, with the two maps of its
--                 closure as a record that each call hands on. Contract.Brief is
--                 the parser of structured briefs in authoring.go, whose loop variables are the
--                 record ParserState; Contract.Structured the checks and the contract that it makes of
--                 what was parsed, with `CompileBriefWithOptions` of compile.go; Contract.Compile the
--                 template of compile.go for a brief without structure.
--   Policy        internal/policy. Policy.Evaluator is `EvaluateTask` and all that it calls
--                 (evaluator.go, governance_classification.go, protected_paths.go); Policy.Index and
--                 Policy.Explain are index.go and explain.go; Policy.ClaimGate is claim_gate.go, over
--                 the decoded JSON of Json.
--   Policy.Repair The governance of autonomous repairs (autonomous_repair_governance.go and
--                 autonomous_repair_architecture.go): Repair.Types and Repair.Documents are the policy,
--                 the request and its five documents; Repair.Governance, Repair.Shapes and
--                 Repair.Authority the checks on them, with Repair.Schedule, Repair.Routing and
--                 Repair.ActionClass; Repair.Canonical the JSON text that is hashed; Repair.Decision is
--                 `EvaluateAutonomousRepairGovernance`.
--   Policy.Mutation governance_authority.go over the decoded JSON of Json: Mutation.Ticket validates a
--                 ticket for a class of mutations, Mutation.MultiRepo its plan over several
--                 repositories, Mutation.LivePolicy the policy for one low-risk change.
--                 Policy.Spine and Policy.CredentialChecklist are the constants of spine.go and
--                 credential_checklist.go.
--   Approval      internal/approval: tickets made, attached to a contract, and revoked. A contract
--                 with a ticket attached passes through Contract.Validate again; the ids that are
--                 revoked are an input of Policy.Evaluator and of Verify.
--   Run           internal/run. Run.Recorder is the event recorder of executor.go, a state that each
--                 emitting call takes and returns; Run.Executor and Run.Executor.Loop are the loop
--                 of `Execute` over the tasks, which asks Policy.Evaluator before it calls the
--                 adapter; Run.Executor.Finish is what follows the loop and `finishRun`, which asks
--                 Closure for the matrix; Run.Adapter is the default adapter of adapter.go over a host
--                 whose calls are parameters (Machine). Run.Prepare is what `Execute` does before its
--                 first event: what it prepares is what `execute_run` is given. Verify reads the
--                 events and the evidence.
--   Closure       internal/closure: the matrix that says which obligations a run has closed.
--   Verify        internal/verify: Verify.Chain is `verifyChain`, Verify.Provenance the checks of the
--                 evidence against the ledger, Verify.Files those of artifacts and input snapshots,
--                 Verify.Verifier `Verify` itself.
--   Paths, Text   what the program uses of Go's `path` and `strings`, written out.
--   Base          the shared names, Boolean tests, results with an error, and maps.
--   Tests         runs at concrete inputs.
--
-- State and errors. A Go map is an association list in which a write shadows the entries of its
-- key; a map that is only asked for its keys is the list of its keys. A result `(value, error)` is
-- an Outcome with an error type of the component, whose constructors stand for the messages. Texts
-- are sequences of code points: the program's texts are UTF-8, and each byte that it tests on its
-- own is ASCII. A heading of a brief that is ASCII in lower case only is therefore outside the model,
-- since the program cuts its prefix by bytes. Numbers that only count up are natural numbers; a
-- timeout keeps its sign. An instant is its nanoseconds since Go's zero time, so that no instant
-- before it is covered.
--
-- What stands outside the repository is a parameter: the case table, `%q` and time.Parse (Host),
-- the clock, the context, the adapter and the file system of a run (Services, Machine and
-- Directories, over a state of the host), SHA-256 of an event's JSON, the file system that is
-- verified, with its paths (Disk), the decoding of JSON (Decoder), and the JSON-schema checks,
-- which are Boolean functions of what they check. The host's files stay as they are while the
-- verifier runs. Where a theorem needs that hashes do not collide, it says for which events.
--
-- Fuel. The executor's outer loop is given one round more than the contract has tasks: a round that
-- goes on has completed a task. `hasCycle` is given two calls more than the contract has tasks: a
-- call enters an id that was not entered before, or one that no task has. All other loops are
-- recursion on what they run over.
--
-- An order that Go leaves open: of several required obligations that the evaluator lacks,
-- Contract.Validate reports the first of the contract's list.
--
-- Not modelled: the summary and the lint of contracts; bundles, releases, schemas, the command line,
-- and the scripts. Those are long lists of checks over decoded JSON, calls of a third-party schema
-- library, or input and output. What a governance request's JSON schema accepts is a parameter of
-- Policy.Repair, as SHA-256 is.
pub mod Base
pub mod Text
pub mod Integers
pub mod Paths
pub mod Json
pub mod Policy
pub mod Contract
pub mod Closure
pub mod Run
pub mod Verify
pub mod Approval
pub mod Tests

-- ===== src/Policy/Repair/Decision/Bound.antt =====
-- What an authorised mutation rests on, whatever the class of its repository.
use text.Mathlib.TextEquality.{eq_iff}
use ao_covenant.Base.{
  ℕ, String, List, Option, refl, ◌≡◌, ◌≢◌, ◌⊎◌, true, false, none, some, ok, arith, All, sym, ◌∙◌,
  subst,
}
use ao_covenant.Base.Dict.{lookup}
use ao_covenant.Text.{Host}
use ao_covenant.Policy.Repair.Types.{
  AutonomousRepairGovernancePolicy, AutonomousRepairRepositoryPolicy,
  AutonomousRepairGovernanceRequest,
}
use ao_covenant.Policy.Repair.Governance.{autonomous_repair_repository_policy, or_default}
use ao_covenant.Policy.Repair.Strings.{automated_reviewer}
use ao_covenant.Policy.Repair.Routing.{validate_architecture_checks}
use ao_covenant.Policy.Repair.ActionClass.{validate_architecture_action_class, team_gate}
use ao_covenant.Policy.Repair.Schedule.Bounds.{Window, chronology-Window}
use ao_covenant.Policy.Repair.Authority.{Services, Authority, documents}
use ao_covenant.Policy.Repair.Authority.Checks.{validate-Checks}
use ao_covenant.Policy.Repair.Authority.Bound.{
  Sealed, documents-Sealed, Linked, binding-Linked, Harmless, candidate-Harmless, Required,
  checks-Required,
}
use ao_covenant.Policy.Repair.Decision.{evaluate_autonomous_repair_governance}
use ao_covenant.Policy.Repair.Decision.Granted.{Carries, evaluate-Granted, evaluate-class}

-- The names of the checks that the policy requires of the repository, by its own entry or else by that
-- for unknown repositories.
abbrev pub expected_checks :
    AutonomousRepairGovernancePolicy → AutonomousRepairGovernanceRequest → List String
expected_checks policy request = elim (lookup policy.repository_policies request.repository) [
  | none ↦ policy.defaults.unknown_repository_policy.required_checks
  | some repository_policy ↦ repository_policy.required_checks
]

expected_checks_lem :
    (policy : AutonomousRepairGovernancePolicy) (request : AutonomousRepairGovernanceRequest)
    → (autonomous_repair_repository_policy policy request.repository).0.required_checks
      ≡ expected_checks policy request
unfolding autonomous_repair_repository_policy
expected_checks_lem policy request = of_entry (lookup policy.repository_policies request.repository)
  where
    of_entry :
        (entry : Option AutonomousRepairRepositoryPolicy)
        → (or_default policy.defaults.unknown_repository_policy entry).0.required_checks
          ≡ elim entry [
            | none ↦ policy.defaults.unknown_repository_policy.required_checks
            | some repository_policy ↦ repository_policy.required_checks
          ]
    of_entry none = refl
    of_entry (some repository_policy) = refl

pub record Bound (services : Services) (policy : AutonomousRepairGovernancePolicy)
    (request : AutonomousRepairGovernanceRequest) (a : Authority) : Type 0 where
  pub not_discovery : request.mode ≢ "discovery"
  pub carried : Carries request a
  pub digests : All (Sealed services.sha256) (documents a)
  pub linked : Linked request a
  pub harmless : Harmless policy request a
  pub governance_checks :
      Required (expected_checks policy request) a.action.head_sha a.governance.required_checks
  pub action_checks :
      Required (expected_checks policy request) a.action.head_sha a.action.required_checks

module _ (services : Services) (policy : AutonomousRepairGovernancePolicy)
    (request : AutonomousRepairGovernanceRequest) (now : ℕ) where
  -- An authorised mutation is no discovery. Its request carries five documents, each with the digest
  -- of its own canonical text, that agree on run, repository, issue, action, bases and heads and that
  -- the action links by digest, with the digest that was approved. Their candidate was selected and
  -- is eligible, and no changed path is of a risky class. The policy requires some check of the
  -- repository, and the governance decision and the action each carry as many checks as it requires,
  -- all of them required ones that succeeded on the head, with one for each name that it requires.
  pub mutation-Bound :
      (evaluate_autonomous_repair_governance services policy request now).mutation_authorized ≡ true
      → (a : Authority) × Bound services policy request a
  mutation-Bound h =
      let (rp, configured) = autonomous_repair_repository_policy policy request.repository in
      let granted = evaluate-Granted services policy request now h in
      let a = granted.authority in
      let checks =
        validate-Checks services policy rp configured request now a granted.passed.checked in
      let (governed, acted) =
        checks-Required (expected_checks policy request) a.governance a.action (
          subst
            (λ (expected : List String).
              validate_architecture_checks expected a.governance a.action ≡ ok tt)
            (expected_checks_lem policy request) checks.green) in
      (
        a,
        record {
          not_discovery = granted.not_discovery;
          carried = granted.passed.carried;
          digests = documents-Sealed services.sha256 a checks.digests;
          linked = binding-Linked request a checks.binding;
          harmless = candidate-Harmless policy request a checks.candidate;
          governance_checks = governed;
          action_checks = acted;
        },
      )

  -- An authorised mutation lies in the window of its documents: each is decided after the run was
  -- created and before the action was approved, the approval is past, the action has not expired and
  -- expires a day after its approval at most and no later than the run, and the run's lifetime is
  -- within the wall-clock seconds of its budget, in exact arithmetic.
  pub mutation-Window :
      (evaluate_autonomous_repair_governance services policy request now).mutation_authorized ≡ true
      → (a : Authority) × Carries request a
        × Window services.host a.envelope a.candidate a.governance a.reviewer a.action now
  mutation-Window h =
      let (rp, configured) = autonomous_repair_repository_policy policy request.repository in
      let granted = evaluate-Granted services policy request now h in
      let a = granted.authority in
      let checks =
        validate-Checks services policy rp configured request now a granted.passed.checked in
      (
        a,
        granted.passed.carried,
        chronology-Window services.host a.envelope a.candidate a.governance a.reviewer a.action now
            checks.chronology,
      )

-- A person who is independent of the change has approved this head for the merge queue.
pub record HumanApproved (host : Host) (a : Authority) : Type 0 where
  pub authorized : a.governance.merge.authorized ≡ true
  pub queued : a.governance.merge.mode ≡ "merge_queue"
  pub approval :
      (a.governance.merge.approval_kind ≡ "independent_human")
      ⊎ (a.governance.merge.approval_kind ≡ "codeowner")
  pub approved_head : a.governance.merge.approval_head_sha ≡ some a.action.head_sha
  pub independent : a.reviewer.status ≡ "independent"
  pub satisfies : a.reviewer.satisfies_team_merge_gate ≡ true
  pub not_automated : automated_reviewer host a.reviewer.reviewer_id ≡ false

team_gate-HumanApproved :
    (host : Host) (a : Authority)
    → team_gate host a.governance.merge a.reviewer a.action ≡ ok tt
    → HumanApproved host a
unfolding team_gate
team_gate-HumanApproved host a h = record {
  authorized = ground (arith, h);
  queued = ground (arith, h);
  approval = ground (arith, h);
  approved_head = ground (arith, h);
  independent = ground (arith, h);
  satisfies = ground (arith, h);
  not_automated = ground (arith, h);
}

class-team_gate :
    (host : Host) (repository_policy : AutonomousRepairRepositoryPolicy) (a : Authority)
    → repository_policy.repository_class ≡ "team"
    → a.action.action ≡ "request_merge_queue"
    → validate_architecture_action_class host repository_policy a.governance a.reviewer a.action
      ≡ ok tt
    → team_gate host a.governance.merge a.reviewer a.action ≡ ok tt
unfolding validate_architecture_action_class
class-team_gate host repository_policy a team queue h =
    ground
      (arith, team, queue, h, eq_iff "team" "external", eq_iff "request_merge_queue" "auto_merge")

-- When a team's repository may be queued for merging, a human reviewer or code owner has approved
-- the very head of the action, and the reviewer is independent and not an automated one.
pub merge_queue-HumanApproved :
    (services : Services) (policy : AutonomousRepairGovernancePolicy)
    (request : AutonomousRepairGovernanceRequest) (now : ℕ)
    → let decision = evaluate_autonomous_repair_governance services policy request now in
      decision.mutation_authorized ≡ true
      → decision.repository_class ≡ "team"
      → request.action ≡ "request_merge_queue"
      → (a : Authority) × Carries request a × HumanApproved services.host a
merge_queue-HumanApproved services policy request now h class queue =
    let (rp, configured) = autonomous_repair_repository_policy policy request.repository in
    let granted = evaluate-Granted services policy request now h in
    let a = granted.authority in
    let checks =
      validate-Checks services policy rp configured request now a granted.passed.checked in
    let linked = binding-Linked request a checks.binding in
    (
      a,
      granted.passed.carried,
      team_gate-HumanApproved services.host a (
          class-team_gate services.host rp a
            (sym (evaluate-class services policy request now) ∙ class) (sym linked.actions ∙ queue)
            checks.action_class),
    )

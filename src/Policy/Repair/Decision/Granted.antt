-- ===== src/Policy/Repair/Decision/Granted.antt =====
-- What stands behind a decision that authorises a mutation: every check of the evaluation has passed.
use ao_covenant.Base.{
  ℕ, String, Bool, true, false, not, some, ◌≡◌, ◌≢◌, refl, arith, ok, err, fail_if, ◌==◌,
  contains_string, Bool-cases, inl, inr, >>-ok, >>=-ok,
}
use ao_covenant.Policy.Repair.Types.{
  AutonomousRepairGovernancePolicy, AutonomousRepairRepositoryPolicy,
  AutonomousRepairGovernanceRequest,
}
use ao_covenant.Policy.Repair.Governance.{
  Check, valid_autonomous_repair_governance_policy, autonomous_repair_repository_policy,
  validate_autonomous_repair_request_shape,
}
use ao_covenant.Policy.Repair.Authority.{
  Services, Authority, canonical_authority, validate_authority,
}
use ao_covenant.Policy.Repair.Decision.{
  evaluate_autonomous_repair_governance, permission, write_permission, mode_permission,
  class_permission, Permission, reported_as, decided, validate_architecture_repair_authority,
}

-- The documents of the request.
abbrev pub Carries : AutonomousRepairGovernanceRequest → Authority → Type 0
Carries request a =
    (request.run_envelope ≡ some a.envelope)
    × (request.candidate_decision ≡ some a.candidate)
    × (request.governance_decision ≡ some a.governance)
    × (request.reviewer_independence ≡ some a.reviewer)
    × (request.github_action_digest ≡ some a.action)

-- A decision that authorises a mutation comes from a permission that does.
mutation-permission :
    (repository_class : String) (p : Permission)
    → (decided repository_class p).mutation_authorized ≡ true
    → (reason : String) × (p ≡ ok (reason, true))
mutation-permission repository_class (err reason) h = cc
mutation-permission repository_class (ok (reason, true)) h = (reason, refl)
mutation-permission repository_class (ok (reason, false)) h = cc

decided-class :
    (repository_class : String) (p : Permission)
    → (decided repository_class p).repository_class ≡ repository_class
decided-class repository_class (err reason) = refl
decided-class repository_class (ok (reason, mutation)) = refl

reported_as-ok :
    (reason : String) (check : Check) → reported_as reason check ≡ ok tt → check ≡ ok tt
unfolding reported_as
reported_as-ok reason (ok tt) h = refl
reported_as-ok reason (err own) h = cc

canonical-Carries :
    (request : AutonomousRepairGovernanceRequest) (a : Authority)
    → canonical_authority request.run_envelope request.candidate_decision
        request.governance_decision request.reviewer_independence request.github_action_digest
      ≡ ok a
    → Carries request a
canonical-Carries request a h = ground arith

module _ (services : Services) (policy : AutonomousRepairGovernancePolicy)
    (request : AutonomousRepairGovernanceRequest) (now : ℕ)
    (repository_policy : AutonomousRepairRepositoryPolicy) (explicitly_configured : Bool) where
  pub record Passed (a : Authority) : Type 0 where
    pub carried : Carries request a
    pub checked :
        validate_authority services policy repository_policy explicitly_configured request now a
        ≡ ok tt
    pub allowed : contains_string repository_policy.allowed_actions request.action ≡ true

  pub record Granted : Type 0 where
    pub policy_valid : valid_autonomous_repair_governance_policy policy ≡ true
    pub shape_valid : validate_autonomous_repair_request_shape request ≡ ok tt
    pub not_discovery : request.mode ≢ "discovery"
    pub authority : Authority
    pub passed : Passed authority
    pub reason : String
    pub class_allows :
        class_permission repository_policy explicitly_configured request.action ≡ ok (reason, true)

  write-Passed :
      {reason : String} {mutation : Bool}
      → write_permission services policy request now repository_policy explicitly_configured
        ≡ ok (reason, mutation)
      → (a : Authority) × Passed a
        × (class_permission repository_policy explicitly_configured request.action
            ≡ ok (reason, mutation))
  unfolding write_permission validate_architecture_repair_authority
  write-Passed h =
      let (h2, class) = >>-ok _ _ h in
      let (h1, denied) = >>-ok _ _ h2 in
      let (h0, action) = >>-ok _ _ h1 in
      let (a, carried, checked) = >>=-ok _ _ h0 in
      (
        a,
        record {
          carried = canonical-Carries request a carried;
          checked = checked;
          allowed = ground (arith, action);
        },
        class,
      )

  mode-write :
      {reason : String}
      → mode_permission services policy request now repository_policy explicitly_configured
        ≡ ok (reason, true)
      → (request.mode ≢ "discovery")
        × ((a : Authority) × Passed a
            × (class_permission repository_policy explicitly_configured request.action
                ≡ ok (reason, true)))
  unfolding mode_permission
  mode-write h = elim (Bool-cases (request.mode == "discovery")) [
    | inl e ↦ ground (arith, h, e)
    | inr e ↦ (ground (arith, e), write-Passed (rw e at h))
  ]

  pub permission-Granted :
      (reason : String)
      → permission services policy request now repository_policy explicitly_configured
        ≡ ok (reason, true)
      → Granted
  unfolding permission
  permission-Granted reason h =
      let (h4, rest) = >>-ok _ _ h in
      let (h3, assertion) = >>-ok _ _ h4 in
      let (h2, schema) = >>-ok _ _ h3 in
      let (h1, shape) =
        >>-ok (fail_if (not (valid_autonomous_repair_governance_policy policy)) "invalid_policy") _
          h2 in
      let (other, (a, passed, class)) = mode-write rest in
      record {
        policy_valid = ground (arith, h1);
        shape_valid =
            reported_as-ok "invalid_request" (validate_autonomous_repair_request_shape request)
              shape;
        not_discovery = other;
        authority = a;
        passed = passed;
        reason = reason;
        class_allows = class;
      }

pub evaluate-Granted :
    (services : Services) (policy : AutonomousRepairGovernancePolicy)
    (request : AutonomousRepairGovernanceRequest) (now : ℕ)
    → (evaluate_autonomous_repair_governance services policy request now).mutation_authorized ≡ true
    → let chosen = autonomous_repair_repository_policy policy request.repository in
      Granted services policy request now chosen.0 chosen.1
unfolding evaluate_autonomous_repair_governance
evaluate-Granted services policy request now h =
    let chosen = autonomous_repair_repository_policy policy request.repository in
    let (reason, granted) =
      mutation-permission chosen.0.repository_class
        (permission services policy request now chosen.0 chosen.1) h in
    permission-Granted services policy request now chosen.0 chosen.1 reason granted

pub evaluate-class :
    (services : Services) (policy : AutonomousRepairGovernancePolicy)
    (request : AutonomousRepairGovernanceRequest) (now : ℕ)
    → (evaluate_autonomous_repair_governance services policy request now).repository_class
      ≡ (autonomous_repair_repository_policy policy request.repository).0.repository_class
unfolding evaluate_autonomous_repair_governance
evaluate-class services policy request now =
    let chosen = autonomous_repair_repository_policy policy request.repository in
    decided-class chosen.0.repository_class
      (permission services policy request now chosen.0 chosen.1)

-- ===== src/Policy/Repair/Authority/Checks.antt =====
-- The checks that a validated authority has passed, one by one.
use ao_covenant.Base.{ℕ, Bool, ◌≡◌, ok, >>-ok, All, each-ok}
use ao_covenant.Policy.Repair.Types.{
  AutonomousRepairGovernancePolicy, AutonomousRepairRepositoryPolicy,
  AutonomousRepairGovernanceRequest,
}
use ao_covenant.Policy.Repair.Schedule.{validate_architecture_chronology}
use ao_covenant.Policy.Repair.Routing.{validate_architecture_routing, validate_architecture_checks}
use ao_covenant.Policy.Repair.ActionClass.{validate_architecture_action_class}
use ao_covenant.Policy.Repair.Authority.{
  Services, Authority, validate_authority, check_digest, documents, check_binding, check_candidate,
  check_repository_policy, check_reviewer,
}

module _ (services : Services) (policy : AutonomousRepairGovernancePolicy)
    (repository_policy : AutonomousRepairRepositoryPolicy) (explicitly_configured : Bool)
    (request : AutonomousRepairGovernanceRequest) (now : ℕ) where
  pub record Checks (a : Authority) : Type 0 where
    pub digests : All (λ d. check_digest services.sha256 d ≡ ok tt) (documents a)
    pub binding : check_binding request a ≡ ok tt
    pub candidate : check_candidate policy request a ≡ ok tt
    pub policy_match :
        check_repository_policy policy repository_policy explicitly_configured a ≡ ok tt
    pub routing :
        validate_architecture_routing repository_policy a.envelope a.governance a.action ≡ ok tt
    pub green :
        validate_architecture_checks repository_policy.required_checks a.governance a.action ≡ ok tt
    pub reviewed : check_reviewer a ≡ ok tt
    pub chronology :
        validate_architecture_chronology services.host a.envelope a.candidate a.governance
          a.reviewer a.action now
        ≡ ok tt
    pub action_class :
        validate_architecture_action_class services.host repository_policy a.governance a.reviewer
          a.action
        ≡ ok tt

  pub validate-Checks :
      (a : Authority)
      → validate_authority services policy repository_policy explicitly_configured request now a
        ≡ ok tt
      → Checks a
  unfolding validate_authority
  validate-Checks a h9 =
      let (h8, action_class) = >>-ok _ _ h9 in
      let (h7, chronology) = >>-ok _ _ h8 in
      let (h6, reviewed) = >>-ok _ _ h7 in
      let (h5, green) = >>-ok _ _ h6 in
      let (h4, routing) = >>-ok _ _ h5 in
      let (h3, policy_match) = >>-ok _ _ h4 in
      let (h2, candidate) = >>-ok _ _ h3 in
      let (h1, binding) = >>-ok _ _ h2 in
      let (shapes, digests) = >>-ok _ _ h1 in
      record {
        digests = each-ok (check_digest services.sha256) (documents a) digests;
        binding = binding;
        candidate = candidate;
        policy_match = policy_match;
        routing = routing;
        green = green;
        reviewed = reviewed;
        chronology = chronology;
        action_class = action_class;
      }

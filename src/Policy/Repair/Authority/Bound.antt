-- ===== src/Policy/Repair/Authority/Bound.antt =====
-- How the five documents of a validated authority hang together, and what they say of the action.
use ao_covenant.Base.{
  String, ◌<>◌, true, false, not, ◌==◌, fail_if, Option, none, some, List, [], ◌∷◌, ◌≡◌, arith, ok,
  ◌≤◌, length, ◌||◌, eqb, Any, each, All, All-map, each-ok, >>-ok, contains_string, Bool-cases, inl,
  inr,
}
use ao_covenant.Json.{Fields}
use ao_covenant.Integers.{ℤ, same_int, decimal_int}
use ao_covenant.Policy.Repair.Documents.{
  ArchitectureRequiredCheck, ArchitectureGovernanceDecision, ArchitectureGitHubActionDigest,
}
use ao_covenant.Policy.Repair.Types.{
  AutonomousRepairGovernancePolicy, AutonomousRepairGovernanceRequest,
}
use ao_covenant.Policy.Repair.Canonical.{architecture_canonical_digest}
use ao_covenant.Policy.Repair.Strings.{every_string_in, same_unique_strings}
use ao_covenant.Policy.Repair.Routing.{check_green, check_names, validate_architecture_checks}
use ao_covenant.Policy.Repair.Authority.{
  Authority, check_digest, documents, check_binding, check_candidate, touches_risky_path,
  candidate_eligible, same_issue,
}

-- The document holds the digest of its own canonical text.
abbrev pub Sealed : (String → String) → Fields × String × String → Type 0
Sealed sha256 (document, excluded_field, got) =
    architecture_canonical_digest sha256 document excluded_field ≡ got

check_digest-Sealed :
    (sha256 : String → String) (d : Fields × String × String)
    → check_digest sha256 d ≡ ok tt
    → Sealed sha256 d
unfolding check_digest
check_digest-Sealed sha256 (document, excluded_field, got) h = ground (arith, h)

pub documents-Sealed :
    (sha256 : String → String) (a : Authority)
    → All (λ d. check_digest sha256 d ≡ ok tt) (documents a)
    → All (Sealed sha256) (documents a)
documents-Sealed sha256 a h =
    All-map (λ d. check_digest sha256 d ≡ ok tt) (Sealed sha256) (documents a)
      (check_digest-Sealed sha256) h

same_int-eq : (m n : ℤ) → same_int m n ≡ true → m ≡ n
same_int-eq m n h = ground arith

same_issue-eq : (issue : Option ℤ) (n : ℤ) → same_issue issue n ≡ true → issue ≡ some n
same_issue-eq none n h = cc
same_issue-eq (some m) n h = ground (arith, same_int-eq m n h)

-- The request and the documents speak of one action: its run, repository, issue, bases and heads
-- agree, and it names the other documents by the digests that they hold.
pub record Linked (request : AutonomousRepairGovernanceRequest) (a : Authority) : Type 0 where
  pub approved : request.approved_action_digest ≡ a.action.action_digest
  pub runs :
      (a.envelope.run_id ≡ a.action.run_id)
      × (a.candidate.run_id ≡ a.action.run_id)
      × (a.governance.run_id ≡ a.action.run_id)
      × (a.reviewer.run_id ≡ a.action.run_id)
  pub repositories :
      (request.repository ≡ a.action.repository)
      × (a.envelope.trigger.repository ≡ a.action.repository)
      × (a.candidate.repository ≡ a.action.repository)
      × (a.governance.repository ≡ a.action.repository)
  pub issues :
      (request.issue_number ≡ some a.action.issue_number)
      × (a.candidate.issue_number ≡ a.action.issue_number)
  pub url :
      a.envelope.trigger.canonical_url
      ≡ "https://github.com/"
        <> a.action.repository
        <> "/issues/"
        <> decimal_int a.action.issue_number
  pub actions : request.action ≡ a.action.action
  pub bases :
      (request.current_base_sha ≡ a.action.base_sha)
      × (a.envelope.trigger.pinned_base_commit ≡ a.action.base_sha)
      × (a.envelope.routing.pinned_base_commit ≡ a.action.base_sha)
      × (a.candidate.base_sha ≡ a.action.base_sha)
      × (a.governance.base_sha ≡ a.action.base_sha)
  pub heads : a.governance.head_sha ≡ a.action.head_sha
  pub digests :
      (a.action.run_envelope_digest ≡ a.envelope.canonical_digest)
      × (a.action.candidate_decision_digest ≡ a.candidate.decision_digest)
      × (a.action.governance_decision_digest ≡ a.governance.decision_digest)
      × (a.action.reviewer_independence_digest ≡ a.reviewer.review_digest)

pub binding-Linked :
    (request : AutonomousRepairGovernanceRequest) (a : Authority)
    → check_binding request a ≡ ok tt
    → Linked request a
unfolding check_binding
binding-Linked request a h9 =
    let (h8, digests) = >>-ok _ _ h9 in
    let (h7, heads) = >>-ok _ _ h8 in
    let (h6, bases) = >>-ok _ _ h7 in
    let (h5, actions) = >>-ok _ _ h6 in
    let (h4, url) = >>-ok _ _ h5 in
    let (h3, issues) = >>-ok _ _ h4 in
    let (h2, repositories) = >>-ok _ _ h3 in
    let (approved, runs) =
      >>-ok
        (fail_if (not (request.approved_action_digest == a.action.action_digest))
          "approved_action_digest_mismatch")
        _ h2 in
    record {
      approved = ground (arith, approved);
      runs = ground (arith, runs);
      repositories = ground (arith, repositories);
      issues = ground (
        arith,
        issues,
        same_issue-eq request.issue_number a.action.issue_number,
        same_int-eq a.candidate.issue_number a.action.issue_number,
      );
      url = ground (arith, url);
      actions = ground (arith, actions);
      bases = ground (arith, bases);
      heads = ground (arith, heads);
      digests = ground (arith, digests);
    }

touches-All :
    (risky classes : List String)
    → touches_risky_path risky classes ≡ false
    → All (λ c. contains_string risky c ≡ false) classes
unfolding touches_risky_path
touches-All risky [] h = tt
touches-All risky (c ∷ classes) h = elim (Bool-cases (contains_string risky c)) [
  | inl e ↦ ground (arith, h, e)
  | inr e ↦ (e, touches-All risky classes (rw e at h))
]

candidate-safe :
    (policy : AutonomousRepairGovernancePolicy) (request : AutonomousRepairGovernanceRequest)
    (a : Authority)
    → check_candidate policy request a ≡ ok tt
    → touches_risky_path policy.risky_path_classes request.changed_path_classes ≡ false
unfolding check_candidate
candidate-safe policy request a h = ground (arith, h)

-- The candidate was selected and is eligible, and no class of changed paths is a risky one.
pub record Harmless (policy : AutonomousRepairGovernancePolicy)
    (request : AutonomousRepairGovernanceRequest) (a : Authority) : Type 0 where
  pub selected : a.candidate.decision ≡ "selected"
  pub eligible : candidate_eligible a.candidate.eligibility ≡ true
  pub no_risky_path :
      All (λ c. contains_string policy.risky_path_classes c ≡ false) request.changed_path_classes

pub candidate-Harmless :
    (policy : AutonomousRepairGovernancePolicy) (request : AutonomousRepairGovernanceRequest)
    (a : Authority)
    → check_candidate policy request a ≡ ok tt
    → Harmless policy request a
unfolding check_candidate
candidate-Harmless policy request a h = record {
  selected = ground (arith, h);
  eligible = ground (arith, h);
  no_risky_path =
      touches-All policy.risky_path_classes request.changed_path_classes
        (candidate-safe policy request a h);
}

-- A check that succeeded on the head.
abbrev Green : String → ArchitectureRequiredCheck → Type 0
Green head_sha check = (check.conclusion ≡ "success") × (check.head_sha ≡ head_sha)

check_green-Green :
    (head_sha : String) (check : ArchitectureRequiredCheck)
    → check_green head_sha check ≡ ok tt
    → Green head_sha check
unfolding check_green
check_green-Green head_sha check h = ground (arith, h)

each-Green :
    (head_sha : String) (checks : List ArchitectureRequiredCheck)
    → each (check_green head_sha) checks ≡ ok tt
    → All (Green head_sha) checks
each-Green head_sha checks h =
    All-map (λ c. check_green head_sha c ≡ ok tt) (Green head_sha) checks
      (check_green-Green head_sha) (each-ok (check_green head_sha) checks h)

every_string_in-All :
    (values allowed : List String)
    → every_string_in values allowed ≡ true
    → All (λ v. contains_string allowed v ≡ true) values
unfolding every_string_in
every_string_in-All [] allowed h = tt
every_string_in-All (v ∷ values) allowed h = elim (Bool-cases (contains_string allowed v)) [
  | inl e ↦ (e, every_string_in-All values allowed (rw e at h))
  | inr e ↦ cc (rw e at h)
]

named-Green :
    (head_sha name : String) (checks : List ArchitectureRequiredCheck)
    → contains_string (check_names checks) name ≡ true
    → All (Green head_sha) checks
    → Any (λ c. (c.name ≡ name) × Green head_sha c) checks
named-Green head_sha name [] h green = cc
named-Green head_sha name (c ∷ checks) h (first, green) = elim (Bool-cases (c.name == name)) [
  | inl e ↦ inl (ground arith, first)
  | inr e ↦ inr (named-Green head_sha name checks (ground (arith, h, e)) green)
]

names-All :
    (expected : List String) (checks : List ArchitectureRequiredCheck)
    → All (λ v. contains_string expected v ≡ true) (check_names checks)
    → All (λ c. contains_string expected c.name ≡ true) checks
names-All expected [] h = tt
names-All expected (c ∷ checks) (first, rest) = (first, names-All expected checks rest)

-- The checks are those that are expected, one for each name, and each has succeeded on the head.
pub record Required (expected : List String) (head_sha : String)
    (checks : List ArchitectureRequiredCheck) : Type 0 where
  pub some_expected : 1 ≤ length expected
  pub count : length checks ≡ length expected
  pub covered : All (λ name. Any (λ c. (c.name ≡ name) × Green head_sha c) checks) expected
  pub only : All (λ c. contains_string expected c.name ≡ true) checks
  pub green : All (Green head_sha) checks

same_unique-Required :
    (expected : List String) (head_sha : String) (checks : List ArchitectureRequiredCheck)
    → 1 ≤ length expected
    → length checks ≡ length expected
    → All (Green head_sha) checks
    → same_unique_strings (check_names checks) expected ≡ true
    → Required expected head_sha checks
unfolding same_unique_strings
same_unique-Required expected head_sha checks some_expected count succeeded h = record {
  green = succeeded;
  some_expected = some_expected;
  count = count;
  covered =
      All-map (λ v. contains_string (check_names checks) v ≡ true)
        (λ name. Any (λ c. (c.name ≡ name) × Green head_sha c) checks) expected
        (λ name named. named-Green head_sha name checks named succeeded)
        (every_string_in-All expected (check_names checks) (ground (arith, h)));
  only =
      names-All expected checks
        (every_string_in-All (check_names checks) expected (ground (arith, h)));
}

pub checks-Required :
    (expected : List String) (governance : ArchitectureGovernanceDecision)
    (action : ArchitectureGitHubActionDigest)
    → validate_architecture_checks expected governance action ≡ ok tt
    → Required expected action.head_sha governance.required_checks
      × Required expected action.head_sha action.required_checks
unfolding validate_architecture_checks
checks-Required expected governance action h3 =
    let names_checked =
      fail_if
        (not (same_unique_strings (check_names governance.required_checks) expected)
          || not (same_unique_strings (check_names action.required_checks) expected))
        "required_checks_mismatch" in
    let counts_checked =
      fail_if
        (eqb (length expected) 0
          || not (eqb (length governance.required_checks) (length expected))
          || not (eqb (length action.required_checks) (length expected)))
        "required_checks_mismatch" in
    let (h2, named) = >>-ok _ names_checked h3 in
    let (h1, acted) = >>-ok _ _ h2 in
    let (counted, governed) = >>-ok counts_checked _ h1 in
    (
      same_unique-Required expected action.head_sha governance.required_checks
          (ground (arith, counted)) (ground (arith, counted))
          (each-Green action.head_sha governance.required_checks governed) (ground (arith, named)),
      same_unique-Required expected action.head_sha action.required_checks (ground (arith, counted))
          (ground (arith, counted)) (each-Green action.head_sha action.required_checks acted)
          (ground (arith, named)),
    )

-- ===== src/Policy/Repair/Schedule/Bounds.antt =====
-- The bounds that the times of a valid chronology obey, in exact arithmetic.
use ao_covenant.Base.{ℕ, ◌+◌, ◌*◌, ◌≤◌, ◌<◌, String, false, some, ◌≡◌, refl, arith, ltb, ok, >>=-ok}
use ao_covenant.Integers.{ℤ, pos, negsuc}
use ao_covenant.Text.{Host}
use ao_covenant.Policy.Repair.Documents.{
  ArchitectureRunEnvelope, ArchitectureCandidateDecision, ArchitectureGovernanceDecision,
  ArchitectureReviewerIndependence, ArchitectureGitHubActionDigest,
}
use ao_covenant.Policy.Repair.Schedule.{
  sub, exceeds_seconds, check_times, validate_architecture_chronology, parsed, max_duration,
}

-- The document's time is the instant.
abbrev pub At : Host → String → ℕ → Type 0
At host value at = host.parse_time value ≡ some at

parsed-At :
    (host : Host) (value : String) {at : ℕ}
    → parsed (host.parse_time value) ≡ ok at
    → At host value at
parsed-At host value h = ground arith

-- Neither the saturation of the difference nor the wrap-around of the product hides a lifetime
-- beyond the budget: a product that wraps to the largest duration does not exist.
pub exceeds_seconds-bound :
    (end start : ℕ) (seconds : ℕ)
    → exceeds_seconds (sub end start) (pos seconds) ≡ false
    → end ≤ start + seconds * 1000000000
unfolding exceeds_seconds sub
exceeds_seconds-bound end start seconds h = ground arith

sub-bound :
    (end start limit : ℕ)
    → limit < max_duration
    → ltb limit (sub end start) ≡ false
    → end ≤ start + limit
unfolding sub
sub-bound end start limit small h = ground arith

check_times-bounds :
    (created envelope_expiry decided governed reviewed approved action_expiry : ℕ) (seconds : ℤ)
    (now : ℕ)
    → check_times created envelope_expiry decided governed reviewed approved action_expiry seconds
        now
      ≡ ok tt
    → (s : ℕ) × (seconds ≡ pos s)
      × ((created ≤ decided)
          × (created ≤ governed)
          × (created ≤ reviewed)
          × (decided ≤ approved)
          × (governed ≤ approved)
          × (reviewed ≤ approved))
      × ((approved ≤ now) × (now < action_expiry) × (action_expiry ≤ envelope_expiry))
      × (action_expiry ≤ approved + 86400000000000)
      × (envelope_expiry ≤ created + s * 1000000000)
unfolding check_times
check_times-bounds created envelope_expiry decided governed reviewed approved action_expiry
      (negsuc n) now h =
    ground (arith, h)
check_times-bounds created envelope_expiry decided governed reviewed approved action_expiry (pos s)
      now h =
    (
      s,
      refl,
      ground (arith, h),
      ground (arith, h),
      ground (arith, h, sub-bound action_expiry approved 86400000000000 (omega arith)),
      ground (arith, h, exceeds_seconds-bound envelope_expiry created s),
    )

-- The times of the documents, in nanoseconds, and how they lie about the time of the evaluation.
module _ (host : Host) (envelope : ArchitectureRunEnvelope)
    (candidate : ArchitectureCandidateDecision) (governance : ArchitectureGovernanceDecision)
    (reviewer : ArchitectureReviewerIndependence) (action : ArchitectureGitHubActionDigest)
    (now : ℕ) where
  pub record Window : Type 0 where
    pub created : ℕ
    pub envelope_expiry : ℕ
    pub decided : ℕ
    pub governed : ℕ
    pub reviewed : ℕ
    pub approved : ℕ
    pub action_expiry : ℕ
    pub seconds : ℕ
    pub created_at : At host envelope.created_at created
    pub envelope_expires_at : At host envelope.expires_at envelope_expiry
    pub candidate_at : At host candidate.decided_at decided
    pub governance_at : At host governance.decided_at governed
    pub reviewer_at : At host reviewer.reviewed_at reviewed
    pub approved_at : At host action.approved_at approved
    pub action_expires_at : At host action.expires_at action_expiry
    pub budget : envelope.budgets.wall_clock_seconds ≡ pos seconds
    pub in_order :
        (created ≤ decided)
        × (created ≤ governed)
        × (created ≤ reviewed)
        × (decided ≤ approved)
        × (governed ≤ approved)
        × (reviewed ≤ approved)
    pub is_open : (approved ≤ now) × (now < action_expiry) × (action_expiry ≤ envelope_expiry)
    pub day : action_expiry ≤ approved + 86400000000000
    pub lifetime : envelope_expiry ≤ created + seconds * 1000000000

  pub chronology-Window :
      validate_architecture_chronology host envelope candidate governance reviewer action now
        ≡ ok tt
      → Window
  unfolding validate_architecture_chronology
  chronology-Window h =
      let (created, e1, h1) = >>=-ok _ _ h in
      let (envelope_expiry, e2, h2) = >>=-ok _ _ h1 in
      let (decided, e3, h3) = >>=-ok _ _ h2 in
      let (governed, e4, h4) = >>=-ok _ _ h3 in
      let (reviewed, e5, h5) = >>=-ok _ _ h4 in
      let (approved, e6, h6) = >>=-ok _ _ h5 in
      let (action_expiry, e7, h7) = >>=-ok _ _ h6 in
      let (seconds, budget, order, is_open, day, lifetime) =
        check_times-bounds created envelope_expiry decided governed reviewed approved action_expiry
          envelope.budgets.wall_clock_seconds now h7 in
      record {
        created = created;
        envelope_expiry = envelope_expiry;
        decided = decided;
        governed = governed;
        reviewed = reviewed;
        approved = approved;
        action_expiry = action_expiry;
        seconds = seconds;
        created_at = parsed-At host envelope.created_at e1;
        envelope_expires_at = parsed-At host envelope.expires_at e2;
        candidate_at = parsed-At host candidate.decided_at e3;
        governance_at = parsed-At host governance.decided_at e4;
        reviewer_at = parsed-At host reviewer.reviewed_at e5;
        approved_at = parsed-At host action.approved_at e6;
        action_expires_at = parsed-At host action.expires_at e7;
        budget = budget;
        in_order = order;
        is_open = is_open;
        day = day;
        lifetime = lifetime;
      }

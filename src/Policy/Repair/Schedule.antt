-- ===== src/Policy/Repair/Schedule.antt =====
-- `validateArchitectureChronology` of internal/policy/autonomous_repair_architecture.go. Times and
-- durations are nanoseconds.
pub mod Bounds
use ao_covenant.Base.{
  ℕ, ◌-◌, ◌*◌, ◌%◌, String, Bool, true, false, not, ◌||◌, Option, none, some, ltb, leb,
  if◌then◌else◌, Outcome, ok, err, fail_if, ◌>>◌, ◌>>=◌,
}
use ao_covenant.Integers.{ℤ, pos, negsuc, at_least}
use ao_covenant.Text.{Host}
use ao_covenant.Policy.Repair.Documents.{
  ArchitectureRunEnvelope, ArchitectureCandidateDecision, ArchitectureGovernanceDecision,
  ArchitectureReviewerIndependence, ArchitectureGitHubActionDigest,
}
use ao_covenant.Policy.Repair.Governance.{Check}

-- The largest `time.Duration`, a signed 64-bit number.
abbrev pub max_duration : ℕ
max_duration = 9223372036854775807

-- `end.Sub(start)` where `end` is not before `start`: it stops at the largest duration.
unfoldable pub sub : ℕ → ℕ → ℕ
sub end start = if leb (end - start) max_duration then end - start else max_duration

-- `lifetime > time.Duration(seconds)*time.Second`: the product wraps around, and may be negative.
unfoldable pub exceeds_seconds : ℕ → ℤ → Bool
exceeds_seconds lifetime (pos seconds) =
    let product = seconds * 1000000000 % 18446744073709551616 in
    if leb product max_duration then ltb product lifetime else true
exceeds_seconds lifetime (negsuc n) = true

abbrev pub parsed : Option ℕ → Outcome String ℕ
parsed none = err "invalid_authority_timestamp"
parsed (some at) = ok at

unfoldable pub check_times : ℕ → ℕ → ℕ → ℕ → ℕ → ℕ → ℕ → ℤ → ℕ → Check
check_times created envelope_expires candidate governance reviewer approved action_expires seconds
      now =
    fail_if
      (ltb now created
        || not (ltb now envelope_expires)
        || not (ltb now action_expires)
        || not (ltb created envelope_expires)
        || not (ltb approved action_expires)
        || ltb 86400000000000 (sub action_expires approved)
        || ltb envelope_expires action_expires
        || ltb candidate created
        || ltb governance created
        || ltb reviewer created
        || ltb approved candidate
        || ltb approved governance
        || ltb approved reviewer
        || ltb now approved)
      "authority_chronology_invalid"
    >> fail_if (not (at_least 1 seconds) || exceeds_seconds (sub envelope_expires created) seconds)
        "envelope_lifetime_invalid"

unfoldable pub validate_architecture_chronology :
    Host
    → ArchitectureRunEnvelope
    → ArchitectureCandidateDecision
    → ArchitectureGovernanceDecision
    → ArchitectureReviewerIndependence
    → ArchitectureGitHubActionDigest
    → ℕ
    → Check
validate_architecture_chronology host envelope candidate governance reviewer action now = do
  created_at ← parsed (host.parse_time envelope.created_at)
  envelope_expires_at ← parsed (host.parse_time envelope.expires_at)
  candidate_at ← parsed (host.parse_time candidate.decided_at)
  governance_at ← parsed (host.parse_time governance.decided_at)
  reviewer_at ← parsed (host.parse_time reviewer.reviewed_at)
  approved_at ← parsed (host.parse_time action.approved_at)
  action_expires_at ← parsed (host.parse_time action.expires_at)
  check_times created_at envelope_expires_at candidate_at governance_at reviewer_at approved_at
      action_expires_at envelope.budgets.wall_clock_seconds now

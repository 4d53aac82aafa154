-- ===== src/Policy/Repair/Routing.antt =====
-- `validateArchitectureRouting` and `validateArchitectureChecks` of
-- internal/policy/autonomous_repair_architecture.go.
use Prim.Native.Char.{code}
use ao_covenant.Base.{
  String, ◌<>◌, not, ◌||◌, ◌&&◌, Option, none, some, List, eqb, ◌==◌, length, map, if◌then◌else◌,
  err, fail_if, ◌>>◌, each,
}
use ao_covenant.Policy.Repair.Documents.{
  ArchitectureRunEnvelope, ArchitectureGovernanceDecision, ArchitectureGitHubActionDigest,
  ArchitectureRequiredCheck,
}
use ao_covenant.Policy.Repair.Types.{AutonomousRepairRepositoryPolicy}
use ao_covenant.Policy.Repair.Strings.{same_unique_strings}
use ao_covenant.Policy.Repair.Governance.{Check, is_nil}

-- `strings.SplitN(repository, "/", 2)[1]`, where there is a second part.
unfoldable pub repository_name : String → Option String
repository_name String.[] = none
repository_name (String.◌∷◌ c s) =
    let rest = repository_name s in if eqb (code c) 47 then some s else rest

-- An index out of range stops the program: a repository without a slash.
abbrev same_fork : String → Option String → String → Check
same_fork owner none fork = err "panic: index out of range"
same_fork owner (some name) fork = fail_if (not (fork == owner <> "/" <> name)) "fork_mismatch"

abbrev check_fork : Option String → Option String → String → Check
check_fork (some owner) (some fork) repository = same_fork owner (repository_name repository) fork
check_fork _ _ repository = err "fork_mismatch"

unfoldable pub validate_architecture_routing :
    AutonomousRepairRepositoryPolicy
    → ArchitectureRunEnvelope
    → ArchitectureGovernanceDecision
    → ArchitectureGitHubActionDigest
    → Check
validate_architecture_routing repository_policy envelope governance action =
    fail_if
      (not (envelope.trigger.default_branch == envelope.routing.default_branch)
        || not (envelope.trigger.pinned_base_commit == envelope.routing.pinned_base_commit)
        || not (action.branch == envelope.routing.repair_branch))
      "routing_mismatch"
    >> (if governance.push_target == "operator_owned_fork"
        then check_fork envelope.routing.fork_owner action.fork action.repository
        else fail_if (not (is_nil envelope.routing.fork_owner) || not (is_nil action.fork))
            "fork_mismatch")
    >> fail_if
        (repository_policy.repository_class == "external"
          && (not (governance.push_target == "operator_owned_fork")
              || not (governance.pull_request_mode == "upstream_draft_only")))
        "external_draft_only"

unfoldable pub check_green : String → ArchitectureRequiredCheck → Check
check_green head_sha check =
    fail_if (not (check.conclusion == "success") || not (check.head_sha == head_sha))
      "required_check_not_green"

abbrev pub check_names : List ArchitectureRequiredCheck → List String
check_names = map ArchitectureRequiredCheck.name

unfoldable pub validate_architecture_checks :
    List String → ArchitectureGovernanceDecision → ArchitectureGitHubActionDigest → Check
validate_architecture_checks expected governance action =
    fail_if
      (eqb (length expected) 0
        || not (eqb (length governance.required_checks) (length expected))
        || not (eqb (length action.required_checks) (length expected)))
      "required_checks_mismatch"
    >> each (check_green action.head_sha) governance.required_checks
    >> each (check_green action.head_sha) action.required_checks
    >> fail_if
        (not (same_unique_strings (check_names governance.required_checks) expected)
          || not (same_unique_strings (check_names action.required_checks) expected))
        "required_checks_mismatch"

-- ===== src/Policy/Spine.antt =====
-- internal/policy/spine.go: what the stack is made of, and who answers for what.
use ao_covenant.Base.{String, List, [], ◌∷◌}

pub record SpineScope : Type 0 where
  pub active_repositories : List String
  pub replaced_by : List String

pub record SpineResponsibility : Type 0 where
  pub name : String
  pub owner : String
  pub gates : List String

pub record SpineResult : Type 0 where
  pub schema_version : String
  pub stack : String
  pub status : String
  pub scope : SpineScope
  pub responsibilities : List SpineResponsibility
  pub out_of_bounds : List String

unfoldable pub ao2_first_spine : String → SpineResult
ao2_first_spine schema_version = record {
  schema_version = schema_version;
  stack = "ao2-first";
  status = "ready";
  scope = record {
    active_repositories =
        ("ao2" ∷ "ao2-control-plane" ∷ "ao-foundry" ∷ "ao-forge" ∷ "ao-command" ∷ "ao-covenant"
          ∷ "ao-atlas" ∷ []);
    replaced_by = ("ao2" ∷ "ao2-control-plane" ∷ []);
  };
  responsibilities =
      (record {
        name = "policy-decision";
        owner = "ao-covenant";
        gates =
            ("contract schema validation" ∷ "strict side-effect decisions"
              ∷ "approval ticket validation" ∷ []);
      }
        ∷ record {
          name = "rsi-claim-boundary";
          owner = "ao-covenant";
          gates =
              ("claim.publish side-effect policy" ∷ "bounded_governed_rsi claim level"
                ∷ "full_autonomous_self_mutating_rsi claim level" ∷ "mutation authority evidence"
                ∷ "rollback evidence" ∷ "live self-change evidence" ∷ []);
        }
        ∷ record {
          name = "execution";
          owner = "ao2";
          gates = ("policy decision input" ∷ "evidence pack output" ∷ []);
        }
        ∷ record {
          name = "control-plane-evidence";
          owner = "ao2-control-plane";
          gates = ("schema-backed publication" ∷ "readiness status exposure" ∷ []);
        }
        ∷ record {
          name = "release-orchestration";
          owner = "ao-forge";
          gates = ("release candidate validation" ∷ "handoff contract validation" ∷ []);
        }
        ∷ record {
          name = "operator-status";
          owner = "ao-command";
          gates = ("read-only status" ∷ "active-stack routing" ∷ []);
        }
        ∷ []);
  out_of_bounds =
      ("does not execute governed work" ∷ "does not publish or store control-plane evidence"
        ∷ "does not replace release orchestration" ∷ "does not provide operator dashboard workflows"
        ∷ []);
}

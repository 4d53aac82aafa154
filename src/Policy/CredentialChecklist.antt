-- ===== src/Policy/CredentialChecklist.antt =====
-- internal/policy/credential_checklist.go: the checklist of credential use, which is about metadata alone.
use ao_covenant.Base.{String, Bool, true, false, List, [], ◌∷◌, length, All, ◌≡◌, refl}
use ao_covenant.Integers.{ℤ, pos}

pub record ScopedCredentialPolicyChecklistItem : Type 0 where
  pub id : String
  pub status : String
  pub requirement : String
  pub evidence : String
  pub requires_credential_value : Bool
  pub allows_credential_capture : Bool

pub record ScopedCredentialPolicyChecklistResult : Type 0 where
  pub schema_version : String
  pub status : String
  pub scope : String
  pub check_count : ℤ
  pub checks : List ScopedCredentialPolicyChecklistItem
  pub credential_value_inspection_allowed : Bool
  pub credential_values_inspected : Bool
  pub credential_values_stored : Bool
  pub requires_credential_material : Bool
  pub safe_to_execute : Bool
  pub executes_work : Bool
  pub approves_work : Bool
  pub mutates_repositories : Bool
  pub provider_calls_allowed : Bool
  pub release_or_publish_allowed : Bool
  pub claims_authority_advance : Bool
  pub rsi_remains_denied : Bool

abbrev pub checks : List ScopedCredentialPolicyChecklistItem
checks =
    (record {
      id = "credential-purpose-declared";
      status = "passed";
      requirement =
          "Every credential-dependent action names its purpose and owning component before execution.";
      evidence = "metadata-only checklist row; no credential value is read";
      requires_credential_value = false;
      allows_credential_capture = false;
    }
      ∷ record {
        id = "credential-scope-minimal";
        status = "passed";
        requirement =
            "Credential use must be scoped to the minimum operation and repository boundary.";
        evidence =
            "operator-readback requirement only; no token, key, or secret material is requested";
        requires_credential_value = false;
        allows_credential_capture = false;
      }
      ∷ record {
        id = "credential-source-external";
        status = "passed";
        requirement =
            "Credential material remains in the operator-controlled provider or host environment.";
        evidence =
            "Covenant records presence/absence intent only and does not copy credential bytes";
        requires_credential_value = false;
        allows_credential_capture = false;
      }
      ∷ record {
        id = "credential-redaction-required";
        status = "passed";
        requirement = "Evidence, errors, and public reports must redact credential-like values.";
        evidence = "public-safety scan and schema-backed report fields are metadata-only";
        requires_credential_value = false;
        allows_credential_capture = false;
      }
      ∷ record {
        id = "credential-no-provider-call";
        status = "passed";
        requirement =
            "This checklist does not perform provider calls or credential validation probes.";
        evidence = "provider_calls_allowed=false and safe_to_execute=false";
        requires_credential_value = false;
        allows_credential_capture = false;
      }
      ∷ [])

unfoldable pub scoped_credential_policy_checklist : String → ScopedCredentialPolicyChecklistResult
scoped_credential_policy_checklist schema_version = record {
  schema_version = schema_version;
  status = "ready";
  scope = "metadata_and_operator_checklist_only";
  check_count = pos (length checks);
  checks = checks;
  credential_value_inspection_allowed = false;
  credential_values_inspected = false;
  credential_values_stored = false;
  requires_credential_material = false;
  safe_to_execute = false;
  executes_work = false;
  approves_work = false;
  mutates_repositories = false;
  provider_calls_allowed = false;
  release_or_publish_allowed = false;
  claims_authority_advance = false;
  rsi_remains_denied = true;
}

-- No item needs a credential's value or lets one be captured.
abbrev MetadataOnly : ScopedCredentialPolicyChecklistItem → Type 0
MetadataOnly item =
    (item.requires_credential_value ≡ false) × (item.allows_credential_capture ≡ false)

checklist-MetadataOnly :
    (schema_version : String)
    → All MetadataOnly (scoped_credential_policy_checklist schema_version).checks
unfolding scoped_credential_policy_checklist
checklist-MetadataOnly schema_version =
    ((refl, refl), ((refl, refl), ((refl, refl), ((refl, refl), ((refl, refl), tt)))))

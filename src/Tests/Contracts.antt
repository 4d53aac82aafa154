-- ===== src/Tests/Contracts.antt =====
-- Validation of a contract, its dependency graph and its paths.
use ao_covenant.Base.{
  ℕ, Bool, true, false, some, List, [], ◌∷◌, ◌≡◌, refl, string_dec, ok, contains_string, each,
}
use ao_covenant.Base.Dict.{has}
use ao_covenant.Text.{to_slash, trim_space, map_runes, is_id_rune}
use ao_covenant.Paths.{slash_clean, escapes, is_abs, split_slash, has_windows_drive_prefix}
use ao_covenant.Paths.Walk.{walk, escapes-walk}
use ao_covenant.Contract.Types.{Task}
use ao_covenant.Contract.Graph.{by_id, ids_of, has_cycle}
use ao_covenant.Contract.Graph.Acyclic.{Leads, has_cycle-acyclic}
use ao_covenant.Contract.Graph.Fuel.{has_cycle_total}
use ao_covenant.Contract.Validate
use ao_covenant.Contract.Validate.{validate}
use ao_covenant.Contract.Validate.Sound.{IsWellFormed, validate-IsWellFormed}
use ao_covenant.Tests.Samples.{host, contract, task, review}

tasks : List Task
tasks = review ∷ task ∷ []

no_cycle : has_cycle tasks ≡ some false
unfolding tasks has_cycle has string_dec
no_cycle = refl

cyclic_test : has_cycle (review ∷ record task { depends_on = "review" ∷ [] } ∷ []) ≡ some true
unfolding has_cycle has string_dec
cyclic_test = refl

listed : contains_string (ids_of tasks) "review" ≡ true
unfolding tasks string_dec
listed = refl

has_cycle-acyclic_example : ¬ Leads (by_id tasks) "review" "review"
has_cycle-acyclic_example = has_cycle-acyclic tasks "review" no_cycle listed

has_cycle_total_example : (b : Bool) × (has_cycle tasks ≡ some b)
has_cycle_total_example = has_cycle_total tasks

validated : validate host (λ t. true) contract ≡ ok tt
unfolding validate Validate.validate_relative_path Validate.validate_paths each
    Validate.validate_obligations Validate.validate_public_id Validate.validate_tasks
    Validate.validate_task Validate.validate_effect Validate.validate_approvals
    Validate.validate_approval Validate.validate_dependencies Validate.required_ids
    Validate.known_or Validate.first_invalid Validate.declared_effects Validate.side_effect_key
    Validate.allowed_task_kind Validate.allowed_side_effect_type Validate.is_reserved_windows_name
    trim_space slash_clean escapes has_windows_drive_prefix is_id_rune map_runes has_cycle has
    string_dec
validated = refl

validate-IsWellFormed_example : IsWellFormed contract
validate-IsWellFormed_example = validate-IsWellFormed host (λ t. true) contract validated

inside : escapes (slash_clean "docs/../plan/./brief.md") ≡ false
unfolding slash_clean escapes has_windows_drive_prefix string_dec
inside = refl

outside_test : escapes (slash_clean "docs/../../plan") ≡ true
unfolding slash_clean escapes has_windows_drive_prefix string_dec
outside_test = refl

escapes-walk_example :
    (is_abs (to_slash "docs/../plan/./brief.md") ≡ false)
    × ((depth : ℕ) × (walk 0 (split_slash (to_slash "docs/../plan/./brief.md")) ≡ some depth))
escapes-walk_example = escapes-walk "docs/../plan/./brief.md" inside

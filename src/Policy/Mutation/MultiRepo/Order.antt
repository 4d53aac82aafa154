-- ===== src/Policy/Mutation/MultiRepo/Order.antt =====
-- The order of a plan over several repositories: nothing is merged before what it depends on.
use ao_covenant.Base.{
  ℕ, suc, ◌+◌, String, Bool, true, not, Option, some, List, [], ◌∷◌, ◌==◌, ◌≡◌, ◌≢◌, sym, ap, ◌∙◌,
  subst, arith, eq_of_==, ok, fail_if, >>-ok, >>=-ok, each-ok, All, All-map, Any, Bool-cases, inl,
  inr,
}
use ao_covenant.Base.Dict.{Dict, insert, has, has-insert}
use ao_covenant.Integers.{ℤ, pos, same_int}
use ao_covenant.Json.{Fields, get}
use ao_covenant.Policy.Mutation.Fields.{
  Library, governance_string_field, governance_int_field, governance_string_slice,
  governance_map_slice,
}
use ao_covenant.Policy.Mutation.MultiRepo.{
  all_seen, check_identity, check_entry, check_entries, validate_ordered_multi_repo_plan, slice_or,
  plan_error,
}

-- A repository that stands in the list.
abbrev pub Earlier : List String → String → Type 0
Earlier before repo = Any (λ r. r ≡ repo) before

abbrev Seen : List String → Dict Bool → Type 0
Seen before seen = (repo : String) → has seen repo ≡ true → Earlier before repo

nothing-Seen : Seen [] []
unfolding has
nothing-Seen repo e = cc

Seen-insert :
    (before : List String) (seen : Dict Bool) (repo : String)
    → Seen before seen
    → Seen (repo ∷ before) (insert repo true seen)
Seen-insert before seen repo h other e = elim (Bool-cases (repo == other)) [
  | inl same ↦ inl (eq_of_== repo other same)
  | inr differ ↦ inr (h other (ground (arith, has-insert repo other true seen, e, differ)))
]

same_int-eq : (m n : ℤ) → same_int m n ≡ true → m ≡ n
same_int-eq m n h = ground arith

pub slice-some :
    {A : Type 0} (message : String) (slice : Option (List A)) {values : List A}
    → slice_or message slice ≡ ok values
    → slice ≡ some values
slice-some message slice h = ground (arith, h)

module _ (library : Library) where
  -- Each entry has the index that it stands at, counted from 1, names a pull request, depends on
  -- repositories that stand before it alone, and is merged after those that it depends on.
  pub record IsPlanned (before : List String) (index : ℕ) (repo : String) (entry : Fields)
      : Type 0 where
    pub named : governance_string_field entry "repo" ≡ repo
    pub not_empty : repo ≢ ""
    pub placed : governance_int_field library entry "order" ≡ pos (index + 1)
    pub planned_pr : governance_string_field entry "planned_pr" ≢ ""
    pub dependencies : List String
    pub depends_on : governance_string_slice (get entry "depends_on") ≡ some dependencies
    pub dependencies_earlier : All (Earlier before) dependencies
    pub after : List String
    pub merge_after : governance_string_slice (get entry "merge_after") ≡ some after
    pub after_earlier : All (Earlier before) after

  -- The names before an entry are those of the entries before it, the last one first.
  abbrev pub Ordered : List String → ℕ → List String → List Fields → Type 0
  Ordered before index [] [] = Unit
  Ordered before index (repo ∷ repos) (entry ∷ entries) =
      IsPlanned before index repo entry × Ordered (repo ∷ before) (suc index) repos entries
  Ordered before index _ _ = ⊥

  all_seen-Earlier :
      (before : List String) (seen : Dict Bool) (dependencies : List String)
      → Seen before seen
      → all_seen seen dependencies ≡ ok tt
      → All (Earlier before) dependencies
  unfolding all_seen
  all_seen-Earlier before seen dependencies h e =
      All-map (λ dependency. fail_if (not (has seen dependency)) plan_error ≡ ok tt)
        (Earlier before) dependencies (λ dependency p. h dependency (ground (arith, p)))
        (each-ok (λ dependency. fail_if (not (has seen dependency)) plan_error) dependencies e)

  identity_parts :
      (index : ℕ) (expected : String) (entry : Fields)
      → check_identity library index expected entry ≡ ok tt
      → (governance_string_field entry "repo" ≡ expected)
        × (expected ≢ "")
        × (same_int (governance_int_field library entry "order") (pos (index + 1)) ≡ true)
        × (governance_string_field entry "planned_pr" ≢ "")
  unfolding check_identity
  identity_parts index expected entry h =
      (ground (arith, h), ground (arith, h), ground (arith, h), ground (arith, h))

  check_entry-IsPlanned :
      (before : List String) (seen : Dict Bool) (index : ℕ) (expected : String) (entry : Fields)
      → Seen before seen
      → check_entry library seen index expected entry ≡ ok tt
      → IsPlanned before index expected entry
  unfolding check_entry
  check_entry-IsPlanned before seen index expected entry known h =
      let (identity, h1) = >>-ok _ _ h in
      let (named, not_empty, placed, planned_pr) = identity_parts index expected entry identity in
      let (dependencies, d, h2) = >>=-ok _ _ h1 in
      let (after, m, h3) = >>=-ok _ _ h2 in
      let (h4, after_seen) = >>-ok _ _ h3 in
      let (_, dependencies_seen) = >>-ok _ _ h4 in
      record {
        named = named;
        not_empty = not_empty;
        placed = same_int-eq (governance_int_field library entry "order") (pos (index + 1)) placed;
        planned_pr = planned_pr;
        dependencies = dependencies;
        depends_on = slice-some plan_error (governance_string_slice (get entry "depends_on")) d;
        dependencies_earlier = all_seen-Earlier before seen dependencies known dependencies_seen;
        after = after;
        merge_after = slice-some plan_error (governance_string_slice (get entry "merge_after")) m;
        after_earlier = all_seen-Earlier before seen after known after_seen;
      }

  check_entries-Ordered :
      (before : List String) (seen : Dict Bool) (index : ℕ) (order : List String)
      (entries : List Fields) {repos : List String}
      → Seen before seen
      → check_entries library seen index order entries ≡ ok repos
      → (repos ≡ order) × Ordered before index order entries
  unfolding check_entries
  check_entries-Ordered before seen index [] [] known h = (ground (arith, h), tt)
  check_entries-Ordered before seen index [] (entry ∷ entries) known h = cc
  check_entries-Ordered before seen index (expected ∷ order) [] known h = cc
  check_entries-Ordered before seen index (expected ∷ order) (entry ∷ entries) known h =
      let (first, h1) = >>-ok (check_entry library seen index expected entry) _ h in
      let (repos, rest, done) = >>=-ok _ _ h1 in
      let planned = check_entry-IsPlanned before seen index expected entry known first in
      let name = planned.named in
      let (same, ordered) =
        check_entries-Ordered (expected ∷ before) _ (suc index) order entries
          (subst (λ r. Seen (expected ∷ before) (insert r true seen)) (sym name)
            (Seen-insert before seen expected known))
          rest in
      (ground (arith, done, same, name), (planned, ordered))

  -- A plan that validates yields its own order. Its entries stand in that order, each at the place
  -- that it says, and each depends on, and is merged after, repositories of earlier entries alone.
  pub plan-Ordered :
      (plan : Fields) (repos : List String)
      → validate_ordered_multi_repo_plan library plan ≡ ok repos
      → (entries : List Fields) × (governance_string_slice (get plan "order") ≡ some repos)
        × (governance_map_slice (get plan "ordered_merge_plan") ≡ some entries)
        × Ordered [] 0 repos entries
  unfolding validate_ordered_multi_repo_plan
  plan-Ordered plan repos h =
      let (order, o, h1) = >>=-ok _ _ h in
      let (_, h2) = >>-ok _ _ h1 in
      let (entries, m, h3) = >>=-ok _ _ h2 in
      let (_, h4) = >>-ok _ _ h3 in
      let (same, ordered) = check_entries-Ordered [] [] 0 order entries nothing-Seen h4 in
      (
        entries,
        slice-some plan_error (governance_string_slice (get plan "order")) o ∙ ap some (sym same),
        slice-some plan_error (governance_map_slice (get plan "ordered_merge_plan")) m,
        subst (λ r. Ordered [] 0 r entries) (sym same) ordered,
      )

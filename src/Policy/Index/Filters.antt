-- ===== src/Policy/Index/Filters.antt =====
-- Which decisions the filters let through.
use text.Mathlib.TextEquality.{eq_iff}
use ao_covenant.Base.{
  String, true, false, not, ◌&&◌, List, [], ◌∷◌, ◌≡◌, ◌≢◌, ◌⊎◌, ◌↔◌, inl, inr, arith, Any, ◌==◌,
  if◌then◌else◌, Bool-cases, subst, sym,
}
use ao_covenant.Paths.{slash_clean}
use ao_covenant.Policy.Types.{Decision}
use ao_covenant.Policy.Index.{DecisionFilters, matches_decision_filters, filter_decisions}

-- An empty filter asks for nothing; a resource is compared with its path normalised.
pub record Passes (filters : DecisionFilters) (d : Decision) : Type 0 where
  pub task : (filters.task_id ≡ "") ⊎ (d.task_id ≡ filters.task_id)
  pub effect : (filters.effect_type ≡ "") ⊎ (d.effect_type ≡ filters.effect_type)
  pub resource : (filters.resource ≡ "") ⊎ (slash_clean d.resource ≡ slash_clean filters.resource)
  pub decision : (filters.decision ≡ "") ⊎ (d.decision ≡ filters.decision)
  pub approval :
      (filters.approval_state ≡ "")
      ⊎ (((filters.approval_state ≡ "with-ticket") × (d.approval_ticket_id ≢ ""))
          ⊎ ((filters.approval_state ≡ "without-ticket") × (d.approval_ticket_id ≡ "")))

states_differ :
    (◌≢◌ {A = String} "with-ticket" "")
    × (◌≢◌ {A = String} "without-ticket" "")
    × (◌≢◌ {A = String} "without-ticket" "with-ticket")
states_differ = (
  ground (arith, eq_iff "with-ticket" ""),
  ground (arith, eq_iff "without-ticket" ""),
  ground (arith, eq_iff "without-ticket" "with-ticket"),
)

-- The guard of a filter that lets the value through.
asks_nothing :
    (filter value : String)
    → (filter ≡ "") ⊎ (value ≡ filter)
    → (not (filter == "") && not (value == filter)) ≡ false
asks_nothing filter value h = ground arith

asks_resource :
    (filter value : String)
    → (filter ≡ "") ⊎ (slash_clean value ≡ slash_clean filter)
    → (not (filter == "") && not (slash_clean value == slash_clean filter)) ≡ false
asks_resource filter value h = ground arith

asks_approval :
    (filters : DecisionFilters) (d : Decision)
    → (filters.approval_state ≡ "")
      ⊎ (((filters.approval_state ≡ "with-ticket") × (d.approval_ticket_id ≢ ""))
          ⊎ ((filters.approval_state ≡ "without-ticket") × (d.approval_ticket_id ≡ "")))
    → (if filters.approval_state == ""
        then true
        else if filters.approval_state == "with-ticket"
        then not (d.approval_ticket_id == "")
        else if filters.approval_state == "without-ticket"
        then d.approval_ticket_id == ""
        else false)
      ≡ true
asks_approval filters d h = ground (arith, states_differ)

matches-Passes :
    (filters : DecisionFilters) (d : Decision)
    → (matches_decision_filters d filters ≡ true) ↔ Passes filters d
unfolding matches_decision_filters
matches-Passes filters d = (
  λ h. record {
    task = ground arith;
    effect = ground arith;
    resource = ground arith;
    decision = ground arith;
    approval = ground arith;
  },
  λ p.
      rw
        (
          asks_nothing filters.task_id d.task_id p.task,
          asks_nothing filters.effect_type d.effect_type p.effect,
          asks_resource filters.resource d.resource p.resource,
          asks_nothing filters.decision d.decision p.decision,
        )
        (asks_approval filters d p.approval),
)

-- A decision is among the filtered ones exactly when it is among those given and passes each filter
-- that is not empty.
pub filter_decisions-Passes :
    (filters : DecisionFilters) (decisions : List Decision) (d : Decision)
    → Any (λ x. x ≡ d) (filter_decisions decisions filters)
      ↔ (Any (λ x. x ≡ d) decisions × Passes filters d)
unfolding filter_decisions
filter_decisions-Passes filters [] d = (λ h. absurd h, λ h. absurd h.0)
filter_decisions-Passes filters (x ∷ decisions) d =
    let ih = filter_decisions-Passes filters decisions d in
    let same = matches-Passes filters x in
    elim (Bool-cases (matches_decision_filters x filters)) [
      | inl e ↦ rw e (
        λ h. elim h [
          | inl here ↦ (inl here, subst (Passes filters) here (same.0 e))
          | inr there ↦ let (listed, passes) = ih.0 there in (inr listed, passes)
        ],
        λ (listed, passes). elim listed [
          | inl here ↦ inl here
          | inr there ↦ inr (ih.1 (there, passes))
        ],
      )
      | inr e ↦ rw e (
        λ h. let (listed, passes) = ih.0 h in (inr listed, passes),
        λ (listed, passes). elim listed [
          | inl here ↦
              cc (e, (matches-Passes filters x).1 (subst (Passes filters) (sym here) passes))
          | inr there ↦ ih.1 (there, passes)
        ],
      )
    ]

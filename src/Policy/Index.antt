-- ===== src/Policy/Index.antt =====
-- internal/policy/index.go
pub mod Filters
use ao_covenant.Base.{String, Bool, true, false, not, ◌&&◌, List, [], ◌∷◌, ◌==◌, if◌then◌else◌}
use ao_covenant.Paths.{slash_clean}
use ao_covenant.Policy.Types.{Decision}

pub record DecisionFilters : Type 0 where
  pub task_id : String
  pub effect_type : String
  pub resource : String
  pub decision : String
  pub approval_state : String

unfoldable pub matches_decision_filters : Decision → DecisionFilters → Bool
matches_decision_filters decision filters =
    if not (filters.task_id == "") && not (decision.task_id == filters.task_id)
    then false
    else if not (filters.effect_type == "") && not (decision.effect_type == filters.effect_type)
    then false
    else if not (filters.resource == "")
        && not (slash_clean decision.resource == slash_clean filters.resource)
    then false
    else if not (filters.decision == "") && not (decision.decision == filters.decision)
    then false
    else if filters.approval_state == ""
    then true
    else if filters.approval_state == "with-ticket"
    then not (decision.approval_ticket_id == "")
    else if filters.approval_state == "without-ticket"
    then decision.approval_ticket_id == ""
    else false

unfoldable pub filter_decisions : List Decision → DecisionFilters → List Decision
filter_decisions [] filters = []
filter_decisions (decision ∷ decisions) filters =
    let rest = filter_decisions decisions filters in
    if matches_decision_filters decision filters then decision ∷ rest else rest

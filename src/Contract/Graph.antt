-- ===== src/Contract/Graph.antt =====
-- `hasCycle` of internal/contract/validate.go: a depth-first search of the dependency graph.
pub mod Order
pub mod Acyclic
pub mod Fuel
use ao_covenant.Base.{
  ℕ, zero, suc, ◌+◌, String, Bool, true, false, Option, none, some, List, [], ◌∷◌, length,
  if◌then◌else◌, ◌≡◌, refl,
}
use ao_covenant.Base.Dict.{Dict, lookup, insert, has}
use ao_covenant.Contract.Types.{Task}

-- `byID`: of two tasks with one id the later stands.
unfoldable pub by_id_onto : Dict Task → List Task → Dict Task
by_id_onto known [] = known
by_id_onto known (task ∷ tasks) = by_id_onto (insert task.id task known) tasks

unfoldable pub by_id : List Task → Dict Task
unfolding by_id_onto
by_id = by_id_onto []

-- `byID[id].DependsOn`: an id with no task has the zero task's dependencies.
abbrev depends_on_of : Option Task → List String
depends_on_of none = []
depends_on_of (some task) = task.depends_on

unfoldable pub depends_on : Dict Task → String → List String
depends_on known id = depends_on_of (lookup known id)

-- The two maps that the closure `visit` shares.
pub record Marks : Type 0 where
  pub visiting : Dict Bool
  pub visited : Dict Bool

abbrev pub no_marks : Marks
no_marks = record { visiting = []; visited = [] }

abbrev pub enter : String → Marks → Marks
enter id m = record m { visiting = insert id true m.visiting }

abbrev pub leave : String → Marks → Marks
leave id m = record { visiting = insert id false m.visiting; visited = insert id true m.visited }

-- `none` means that the fuel ran out. A cycle that is found ends the search.
abbrev pub resume : Option (Bool × Marks) → (Marks → Option (Bool × Marks)) → Option (Bool × Marks)
resume none rest = none
resume (some (true, m)) rest = some (true, m)
resume (some (false, m)) rest = rest m

-- The loop over the dependencies, and the loop over the tasks.
unfoldable pub visit_all :
    (String → Marks → Option (Bool × Marks)) → List String → Marks → Option (Bool × Marks)
visit_all call [] m = some (false, m)
visit_all call (id ∷ ids) m = resume (call id m) (visit_all call ids)

unfoldable pub visit : Dict Task → ℕ → String → Marks → Option (Bool × Marks)
unfolding visit_all
visit known zero id m = none
visit known (suc fuel) id m =
    let below =
      resume (visit_all (visit known fuel) (depends_on known id) (enter id m))
        (λ m'. some (false, leave id m')) in
    if has m.visiting id
    then some (true, m)
    else if has m.visited id
    then some (false, m)
    else below

abbrev pub ids_of : List Task → List String
ids_of [] = []
ids_of (task ∷ tasks) = task.id ∷ ids_of tasks

abbrev answer : Option (Bool × Marks) → Option Bool
answer none = none
answer (some (found, m)) = some found

-- A path of entered ids has no id twice and only its last id can have no task.
unfoldable pub has_cycle : List Task → Option Bool
unfolding visit by_id depends_on
has_cycle tasks =
    answer (visit_all (visit (by_id tasks) (length tasks + 2)) (ids_of tasks) no_marks)

-- ===== src/Run/Executor/Loop/States.antt =====
-- The states of the tasks, while the loop sets their statuses.
use ao_covenant.Base.{String, List, [], ◌∷◌, ◌≡◌, refl, arith, ◌==◌, if◌then◌else◌}
use ao_covenant.Contract.Types.{Task}
use ao_covenant.Run.Executor.{TaskState, set_status}
use ao_covenant.Run.Executor.Loop.{initial_states}

-- The states of tasks whose statuses are a function of their ids.
unfoldable pub states_by : (String → String) → List Task → List TaskState
states_by statuses [] = []
states_by statuses (t ∷ tasks) =
    record { task = t; status = statuses t.id } ∷ states_by statuses tasks

-- There is one state for each task, and tasks with the same id have the same status.
abbrev pub Tracked : List Task → List TaskState → Type 0
Tracked tasks states = (statuses : String → String) × (states ≡ states_by statuses tasks)

unset : (tasks : List Task) → initial_states tasks ≡ states_by (λ id. "") tasks
unfolding states_by
unset [] = refl
unset (t ∷ tasks) = ground (arith, unset tasks)

pub initial_states-Tracked : (tasks : List Task) → Tracked tasks (initial_states tasks)
initial_states-Tracked tasks = (λ id. "", unset tasks)

set_status-states_by :
    (id status : String) (statuses : String → String) (tasks : List Task)
    → set_status id status (states_by statuses tasks)
      ≡ states_by (λ other. if other == id then status else statuses other) tasks
unfolding set_status states_by
set_status-states_by id status statuses [] = refl
set_status-states_by id status statuses (t ∷ tasks) =
    ground (arith, set_status-states_by id status statuses tasks)

pub set_status-Tracked :
    (id status : String) (tasks : List Task) (states : List TaskState)
    → Tracked tasks states
    → Tracked tasks (set_status id status states)
set_status-Tracked id status tasks states (statuses, same) = (
  λ other. if other == id then status else statuses other,
  rw same (set_status-states_by id status statuses tasks),
)

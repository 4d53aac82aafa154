-- ===== src/Contract/Validate/Loops.antt =====
-- What each loop of `Validate` establishes when it ends without an error.
use ao_covenant.Base.{
  ℕ, String, Bool, true, false, some, List, [], ◌∷◌, map, ◌==◌, ◌≡◌, inl, inr, refl, subst, arith,
  All, All-map, Any, ok, each, each-ok, contains_string, Bool-cases, eq_of_==,
}
use ao_covenant.Text.{Host, to_slash}
use ao_covenant.Paths.{slash_clean, escapes, is_abs, split_slash}
use ao_covenant.Paths.Walk.{walk, escapes-walk}
use ao_covenant.Policy.Types.{ActionRef, ApprovalTicket}
use ao_covenant.Contract.Types.{Obligation, Task}
use ao_covenant.Contract.Graph.{ids_of}
use ao_covenant.Contract.Validate.{
  validate_relative_path, validate_paths, validate_public_id, validate_obligations, validate_task,
  validate_tasks, validate_approval, validate_approvals, allowed_task_kind,
  allowed_side_effect_type, is_positive, obligation_ids, known_or, validate_effect, Error,
  unknown_obligation,
}
use ao_covenant.Contract.Validate.Names.{
  Declares, NulFree, Keyed, public_id-NulFree, allowed-NulFree, declared_effects-Declares,
}

-- The path is relative, and the walk along it never leaves the directory it starts in.
abbrev pub StaysInside : String → Type 0
StaysInside raw =
    (is_abs (to_slash raw) ≡ false)
    × ((depth : ℕ) × (walk 0 (split_slash (to_slash raw)) ≡ some depth))

pub validate_relative_path-StaysInside :
    (label raw : String) → validate_relative_path label raw ≡ ok tt → StaysInside raw
unfolding validate_relative_path
validate_relative_path-StaysInside label raw h =
    let inside : escapes (slash_clean raw) ≡ false = ground arith in escapes-walk raw inside

pub validate_paths-StaysInside :
    (label : String) (paths : List String)
    → validate_paths label paths ≡ ok tt
    → All StaysInside paths
unfolding validate_paths
validate_paths-StaysInside label paths h =
    All-map _ StaysInside paths (validate_relative_path-StaysInside label)
      (each-ok (validate_relative_path label) paths h)

-- No text twice.
abbrev pub Nodup : List String → Type 0
Nodup [] = Unit
Nodup (x ∷ xs) = (contains_string xs x ≡ false) × Nodup xs

-- A loop that refuses what it has seen leaves no text twice.
abbrev pub Fresh : List String → List String → Type 0
Fresh seen [] = Unit
Fresh seen (x ∷ xs) = (contains_string seen x ≡ false) × Fresh (x ∷ seen) xs

Fresh-lacks :
    (seen xs : List String) (y : String)
    → Fresh seen xs
    → contains_string seen y ≡ true
    → contains_string xs y ≡ false
Fresh-lacks seen [] y f h = refl
Fresh-lacks seen (x ∷ xs) y (new, f) h =
    ground (arith, Fresh-lacks (x ∷ seen) xs y f (ground arith))

pub Fresh-Nodup : (seen xs : List String) → Fresh seen xs → Nodup xs
Fresh-Nodup seen [] f = tt
Fresh-Nodup seen (x ∷ xs) (new, f) =
    (Fresh-lacks (x ∷ seen) xs x f (ground arith), Fresh-Nodup (x ∷ seen) xs f)

module _ (host : Host) where
  pub obligations-Fresh :
      (seen : List String) (os : List Obligation)
      → validate_obligations host seen os ≡ ok tt
      → Fresh seen (obligation_ids os)
  unfolding validate_obligations
  obligations-Fresh seen [] h = tt
  obligations-Fresh seen (o ∷ os) h =
      (ground arith, obligations-Fresh (o.id ∷ seen) os (ground arith))

-- What validation checks of one task: a known kind, a positive timeout, known obligations, and
-- side effects of known types on resources inside the workspace.
pub record IsSoundTask (known : List String) (task : Task) : Type 0 where
  pub kind : allowed_task_kind task.kind ≡ true
  pub timeout : is_positive task.timeout_secs ≡ true
  pub obligations : All (λ o. contains_string known o ≡ true) task.obligations
  pub effects :
      All
        (λ a. (allowed_side_effect_type a.type ≡ true) × StaysInside a.resource)
        task.declared_side_effects

pub known_or-All :
    (error : String → Error) (known ids : List String)
    → each (known_or error known) ids ≡ ok tt
    → All (λ id. contains_string known id ≡ true) ids
unfolding each known_or
known_or-All error known [] h = tt
known_or-All error known (id ∷ ids) h = (ground arith, known_or-All error known ids (ground arith))

validate_effect-lem :
    (task : Task) (a : ActionRef)
    → validate_effect task a ≡ ok tt
    → (allowed_side_effect_type a.type ≡ true) × StaysInside a.resource
unfolding validate_effect
validate_effect-lem task a h =
    let path : validate_relative_path "side effect resource" a.resource ≡ ok tt = ground arith in
    (ground arith, validate_relative_path-StaysInside "side effect resource" a.resource path)

module _ (task_schema : Task → Bool) where
  validate_task-IsSoundTask :
      (known : List String) (task : Task)
      → validate_task task_schema known task ≡ ok tt
      → IsSoundTask known task
  unfolding validate_task
  validate_task-IsSoundTask known task h = record {
    kind = ground arith;
    timeout = ground arith;
    obligations = known_or-All (unknown_obligation task.id) known task.obligations (ground arith);
    effects =
        All-map _ _ task.declared_side_effects (validate_effect-lem task)
          (each-ok (validate_effect task) task.declared_side_effects (ground arith));
  }

-- What validation checks of all the tasks.
pub record TasksChecked (known seen : List String) (tasks : List Task) : Type 0 where
  pub fresh : Fresh seen (ids_of tasks)
  pub sound : All (IsSoundTask known) tasks
  pub keyed : All Keyed tasks

effects-NulFree :
    (actions : List ActionRef)
    → All (λ a. (allowed_side_effect_type a.type ≡ true) × StaysInside a.resource) actions
    → All (λ a. NulFree a.type) actions
effects-NulFree [] h = tt
effects-NulFree (a ∷ actions) ((allowed, _), h) =
    (allowed-NulFree a.type allowed, effects-NulFree actions h)

module _ (host : Host) (task_schema : Task → Bool) where
  tasks_cons :
      (known seen : List String) (task : Task) (tasks : List Task)
      → validate_tasks host task_schema known seen (task ∷ tasks) ≡ ok tt
      → (validate_public_id host "task id" task.id ≡ ok tt)
        × (contains_string seen task.id ≡ false)
        × (validate_task task_schema known task ≡ ok tt)
        × (validate_tasks host task_schema known (task.id ∷ seen) tasks ≡ ok tt)
  unfolding validate_tasks
  tasks_cons known seen task tasks h = ground arith

  pub validate_tasks-TasksChecked :
      (known seen : List String) (tasks : List Task)
      → validate_tasks host task_schema known seen tasks ≡ ok tt
      → TasksChecked known seen tasks
  validate_tasks-TasksChecked known seen [] h = record { fresh = tt; sound = tt; keyed = tt }
  validate_tasks-TasksChecked known seen (task ∷ tasks) h =
      let (id, new, checked, rest) = tasks_cons known seen task tasks h in
      let sound = validate_task-IsSoundTask task_schema known task checked in
      let others = validate_tasks-TasksChecked known (task.id ∷ seen) tasks rest in
      record {
        fresh = (new, others.fresh);
        sound = (sound, others.sound);
        keyed = (
          (
            public_id-NulFree host "task id" task.id id,
            effects-NulFree task.declared_side_effects sound.effects,
          ),
          others.keyed,
        );
      }

-- What validation checks of all the tickets.
pub record ApprovalsChecked (seen : List String) (tasks : List Task)
    (approvals : List ApprovalTicket) : Type 0 where
  pub fresh : Fresh seen (map (λ t. t.ticket_id) approvals)
  pub declared : All (λ t. Any (Declares t.task_id t.effect_type t.resource) tasks) approvals

Keyed-NulFree :
    (tasks : List Task) (id : String)
    → All Keyed tasks
    → contains_string (ids_of tasks) id ≡ true
    → NulFree id
Keyed-NulFree [] id k h = cc
Keyed-NulFree (task ∷ tasks) id (k, ks) h = elim (Bool-cases (task.id == id)) [
  | inl same ↦ subst NulFree (eq_of_== task.id id same) k.0
  | inr differ ↦ Keyed-NulFree tasks id ks (rw differ at h)
]

module _ (host : Host) where
  validate_approval-Declares :
      (tasks : List Task) (t : ApprovalTicket)
      → All Keyed tasks
      → validate_approval host tasks t ≡ ok tt
      → Any (Declares t.task_id t.effect_type t.resource) tasks
  unfolding validate_approval
  validate_approval-Declares tasks t k h =
      declared_effects-Declares t.task_id t.effect_type t.resource
        (Keyed-NulFree tasks t.task_id k (ground arith))
        (allowed-NulFree t.effect_type (ground arith)) tasks k (ground arith)

  approvals_cons :
      (tasks : List Task) (seen : List String) (t : ApprovalTicket) (ts : List ApprovalTicket)
      → validate_approvals host tasks seen (t ∷ ts) ≡ ok tt
      → (contains_string seen t.ticket_id ≡ false)
        × (validate_approval host tasks t ≡ ok tt)
        × (validate_approvals host tasks (t.ticket_id ∷ seen) ts ≡ ok tt)
  unfolding validate_approvals
  approvals_cons tasks seen t ts h = ground arith

  pub validate_approvals-ApprovalsChecked :
      (tasks : List Task) (seen : List String) (approvals : List ApprovalTicket)
      → All Keyed tasks
      → validate_approvals host tasks seen approvals ≡ ok tt
      → ApprovalsChecked seen tasks approvals
  validate_approvals-ApprovalsChecked tasks seen [] k h = record { fresh = tt; declared = tt }
  validate_approvals-ApprovalsChecked tasks seen (t ∷ ts) k h =
      let (new, checked, rest) = approvals_cons tasks seen t ts h in
      let others = validate_approvals-ApprovalsChecked tasks (t.ticket_id ∷ seen) ts k rest in
      record {
        fresh = (new, others.fresh);
        declared = (validate_approval-Declares tasks t k checked, others.declared);
      }

-- ===== src/Closure/Accepted.antt =====
-- When a run is accepted.
use text.Mathlib.TextEquality.{eq_iff}
use ao_covenant.Base.{
  String, Bool, true, false, not, ◌&&◌, List, [], ◌∷◌, contains_string, ◌==◌, ◌≡◌, ◌≢◌, ◌↔◌, arith,
  All, Any, refl,
}
use ao_covenant.Base.Dict.{lookup}
use ao_covenant.Contract.Types.{Obligation, Task}
use ao_covenant.Closure.{
  Input, or_empty, claiming_task_ids, has_successful_task, evaluate_obligation, status_after,
  evaluate, status_accepted, status_rejected, row_status_closed, row_status_open,
}

-- The task names the obligation and finished with success.
abbrev pub Fulfils : Input → String → Task → Type 0
Fulfils input obligation_id task =
    (contains_string task.obligations obligation_id ≡ true)
    × (or_empty (lookup input.task_statuses task.id) ≡ "success")

abbrev pub Fulfilled : Input → Obligation → Type 0
Fulfilled input obligation = Any (Fulfils input obligation.id) input.tasks

module _ (input : Input) where
  successful-Any :
      (id : String) (tasks : List Task)
      → (has_successful_task input.task_statuses (claiming_task_ids tasks id) ≡ true)
        ↔ Any (Fulfils input id) tasks
  unfolding has_successful_task claiming_task_ids
  successful-Any id [] = (λ h. cc, λ h. absurd h)
  successful-Any id (t ∷ tasks) =
      (λ h. ground (arith, successful-Any id tasks), λ h. ground (arith, successful-Any id tasks))

statuses_differ :
    (◌≢◌ {A = String} status_rejected status_accepted)
    × (◌≢◌ {A = String} row_status_open row_status_closed)
statuses_differ = (
  ground (arith, eq_iff status_rejected status_accepted),
  ground (arith, eq_iff row_status_open row_status_closed),
)

module _ (input : Input) where
  -- A row is closed exactly when the run succeeded and some successful task names its obligation.
  row-closed :
      (o : Obligation)
      → ((evaluate_obligation input o).status ≡ row_status_closed)
        ↔ ((input.run_status ≡ "success") × Fulfilled input o)
  unfolding evaluate_obligation
  row-closed o = (
    λ h. ground (arith, statuses_differ, successful-Any input o.id input.tasks),
    λ h. ground (arith, successful-Any input o.id input.tasks),
  )

  status_after-rejected :
      (obligations : List Obligation)
      → status_after input status_rejected obligations ≡ status_rejected
  unfolding status_after
  status_after-rejected [] = refl
  status_after-rejected (o ∷ obligations) = ground (arith, status_after-rejected obligations)

  -- Each required obligation has a closed row.
  abbrev Settled : List Obligation → Type 0
  Settled = All (λ o. o.required ≡ true → (evaluate_obligation input o).status ≡ row_status_closed)

  unsettled : Obligation → Bool
  unsettled o = o.required && not ((evaluate_obligation input o).status == row_status_closed)

  status_after-cons :
      (o : Obligation) (obligations : List Obligation)
      → status_after input status_accepted (o ∷ obligations) ≡ status_accepted
      → (unsettled o ≡ false) × (status_after input status_accepted obligations ≡ status_accepted)
  unfolding status_after unsettled
  status_after-cons o obligations h =
      ground (arith, statuses_differ, status_after-rejected obligations)

  status_after-accepted :
      (obligations : List Obligation)
      → (status_after input status_accepted obligations ≡ status_accepted) ↔ Settled obligations
  unfolding status_after unsettled
  status_after-accepted [] = (λ h. tt, λ h. refl)
  status_after-accepted (o ∷ obligations) = (
    λ h.
        let (settled, rest) = status_after-cons o obligations h in
        (λ required. ground arith, (status_after-accepted obligations).0 rest),
    λ h. ground (arith, (status_after-accepted obligations).1 h.1, h.0),
  )

  Settled-Fulfilled :
      (obligations : List Obligation)
      → input.run_status ≡ "success"
      → Settled obligations ↔ All (λ o. o.required ≡ true → Fulfilled input o) obligations
  Settled-Fulfilled [] success = (λ h. tt, λ h. tt)
  Settled-Fulfilled (o ∷ obligations) success =
      let ih = Settled-Fulfilled obligations success in
      (
        λ h. (λ required. ((row-closed o).0 (h.0 required)).1, ih.0 h.1),
        λ h. (λ required. (row-closed o).1 (success, h.0 required), ih.1 h.1),
      )

  -- The matrix is accepted exactly when the run succeeded and each required obligation is named by
  -- some task of the run that finished with success.
  pub evaluate-accepted : ((evaluate input).status ≡ status_accepted) ↔ (
      (input.run_status ≡ "success")
      × All (λ o. o.required ≡ true → Fulfilled input o) input.obligations)
  unfolding evaluate
  evaluate-accepted = (
    λ h.
        let success : input.run_status ≡ "success" = ground (arith, statuses_differ) in
        let after : status_after input status_accepted input.obligations ≡ status_accepted =
          ground (arith, statuses_differ) in
        (
          success,
          (Settled-Fulfilled input.obligations success).0
              ((status_after-accepted input.obligations).0 after),
        ),
    λ h. ground (
      arith,
      (status_after-accepted input.obligations).1 ((Settled-Fulfilled input.obligations h.0).1 h.1),
    ),
  )

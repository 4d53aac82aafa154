-- ===== src/Run/Executor/Loop/Effects.antt =====
-- What the adapter is called for: the side effects of a task that the policy allows.
use ao_covenant.Base.{
  ℕ, ◌+◌, String, Bool, ◌||◌, none, List, [], ◌∷◌, ◌≡◌, inl, inr, arith, ◌==◌, Outcome, ok, err,
  All, Bool-cases,
}
use ao_covenant.Base.Dict.{Dict}
use ao_covenant.Text.{Host}
use ao_covenant.Policy.Types.{ActionRef, Input, decision_allow}
use ao_covenant.Policy.Evaluator.{evaluate_action, evaluate_from, evaluate_task}
use ao_covenant.Policy.Evaluator.Task.{action-AllowOrDeny}
use ao_covenant.Contract.Types.{Contract, Task}
use ao_covenant.Run.Types.{ArtifactRef}
use ao_covenant.Run.Executor.{
  Services, Run, first_denied_decision, policy_input, evaluate_task_policy, execute_side_effects,
  execute_task, after_action,
}

-- The policy allows the side effect of the task, at this time.
abbrev pub Allowed : Host → Contract → Dict Bool → Task → ℕ → ActionRef → Type 0
Allowed host c revoked task now action =
    (evaluate_action host (policy_input c revoked task now) now action).decision ≡ decision_allow

undenied-allowed :
    (host : Host) (input : Input) (now index : ℕ) (actions : List ActionRef)
    → first_denied_decision (evaluate_from host input (λ i. now) index actions) ≡ none
    → All (λ a. (evaluate_action host input now a).decision ≡ decision_allow) actions
unfolding first_denied_decision evaluate_from
undenied-allowed host input now index [] h = tt
undenied-allowed host input now index (a ∷ actions) h =
    let kind = action-AllowOrDeny host input now a in
    (ground arith, undenied-allowed host input now (index + 1) actions (ground arith))

pub policy-allows :
    (host : Host) (c : Contract) (revoked : Dict Bool) (t : Task) (now : ℕ)
    → first_denied_decision (evaluate_task_policy host c revoked t now) ≡ none
    → All (Allowed host c revoked t now) t.declared_side_effects
unfolding evaluate_task_policy evaluate_task
policy-allows host c revoked t now h =
    undenied-allowed host (policy_input c revoked t now) now 0 t.declared_side_effects h

module _ {World : Type 0} (host : Host) (services : Services World) (c : Contract)
    (revoked : Dict Bool) (Inv : World → Type 0)
    (keeps : (w : World) (t : Task) (a : ActionRef) (i now : ℕ)
      → Allowed host c revoked t now a
      → Inv w
      → Inv (services.execute_action w t a i).0) where
  after_action-Inv :
      (w : World) (rest : World × Outcome String (List ArtifactRef))
      (out : Outcome String (List ArtifactRef))
      → Inv w
      → Inv rest.0
      → Inv (after_action w rest out).0
  after_action-Inv w rest (ok artifacts) h h' = h'
  after_action-Inv w rest (err e) h h' = h

  side_effects-Inv :
      (w : World) (t : Task) (index now : ℕ) (actions : List ActionRef)
      → All (Allowed host c revoked t now) actions
      → Inv w
      → Inv (execute_side_effects services w t index actions).0
  unfolding execute_side_effects
  side_effects-Inv w t index now [] allowed h = h
  side_effects-Inv w t index now (a ∷ actions) (allows, allowed) h =
      let step = services.execute_action w t a index in
      let kept = keeps w t a index now allows h in
      after_action-Inv step.0 (execute_side_effects services step.0 t (index + 1) actions) step.1
        kept (side_effects-Inv step.0 t (index + 1) now actions allowed kept)

  pub execute_task-Inv :
      (run : Run World) (t : Task) (now : ℕ)
      → All (Allowed host c revoked t now) t.declared_side_effects
      → Inv run.world
      → Inv (execute_task services c run.states run.world t).0
  unfolding execute_task
  execute_task-Inv run t now allowed h =
      elim (Bool-cases (t.kind == "scripted" || t.kind == "shell" || t.kind == "agent")) [
        | inl acts ↦ rw acts (side_effects-Inv run.world t 0 now t.declared_side_effects allowed h)
        | inr idle ↦ elim (Bool-cases (t.kind == "verify")) [
          | inl e ↦ rw (idle, e) h
          | inr not_verify ↦ elim (Bool-cases (t.kind == "review")) [
            | inl e ↦ rw (idle, not_verify, e) h
            | inr not_review ↦ elim (Bool-cases (t.kind == "evaluate")) [
              | inl e ↦ rw (idle, not_verify, not_review, e) h
              | inr e ↦ rw (idle, not_verify, not_review, e) h
            ]
          ]
        ]
      ]

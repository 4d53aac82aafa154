-- ===== src/Contract/Compile/Allowed.antt =====
-- The policy and the template agree: no side effect that it declares needs a ticket.
use ao_covenant.Base.{
  ℕ, String, Bool, List, [], ◌∷◌, ◌≡◌, inl, inr, refl, subst, All, All-map, Outcome, ok, err, ◌>>=◌,
  >>-ok, Bool-cases, ◌==◌,
}
use ao_covenant.Base.Dict.{Dict}
use ao_covenant.Text.{Host, trim_space}
use ao_covenant.Paths.{slash_clean}
use ao_covenant.Policy.Types.{ActionRef}
use ao_covenant.Policy.Evaluator.Authority.{Declared, write}
use ao_covenant.Policy.Evaluator.Authority.Complete.{Authorised-allow}
use ao_covenant.Contract.Types.{Contract, Task}
use ao_covenant.Contract.Compile.{
  file_write_actions, change_task, validated_template, template_contract,
  normalize_workspace_writes, compile_unstructured,
}
use ao_covenant.Contract.Validate.{Error, validate, validate_relative_path}
use ao_covenant.Contract.Validate.Sound.{IsWellFormed, validate-IsWellFormed}
use ao_covenant.Run.Executor.{policy_input}
use ao_covenant.Run.Executor.Loop.Effects.{Allowed}

-- A write of one of the listed paths.
abbrev Writes : List String → ActionRef → Type 0
Writes paths a = (a.type ≡ "file.write") × Declared paths a.resource

file_write_actions-Writes : (paths : List String) → All (Writes paths) (file_write_actions paths)
unfolding file_write_actions
file_write_actions-Writes [] = tt
file_write_actions-Writes (path ∷ paths) = (
  (refl, inl refl),
  All-map (Writes paths) (Writes (path ∷ paths)) (file_write_actions paths)
      (λ a (type, declared). (type, inr declared)) (file_write_actions-Writes paths),
)

module _ (host : Host) (revoked : Dict Bool) (now : ℕ) (brief source : String)
    (writes : List String) where
  write-Allowed :
      (t : Task) (a : ActionRef)
      → Writes writes a
      → Allowed host (template_contract brief source writes) revoked t now a
  unfolding template_contract
  write-Allowed t a (type, declared) =
      Authorised-allow host (policy_input (template_contract brief source writes) revoked t now) now
        a "" refl (write type declared refl)

  template-Allowed :
      All
        (λ t.
          All
            (Allowed host (template_contract brief source writes) revoked t now)
            t.declared_side_effects)
        (template_contract brief source writes).tasks
  unfolding template_contract change_task
  template-Allowed = (
    All-map _ _ (file_write_actions writes) (write-Allowed (change_task writes))
        (file_write_actions-Writes writes),
    (tt, (tt, tt)),
  )

bound :
    (m : Outcome Error (List String)) (rest : List String → Outcome Error Contract) (c : Contract)
    → (m >>= rest) ≡ ok c
    → (writes : List String) × (rest writes ≡ ok c)
bound (ok writes) rest c h = (writes, h)
bound (err e) rest c h = cc

module _ (host : Host) (task_schema : Task → Bool) where
  compiled_parts :
      (brief source : String) (raw_writes : List String) (c : Contract)
      → compile_unstructured host task_schema brief source raw_writes ≡ ok c
      → (writes : List String) × (template_contract brief (slash_clean source) writes ≡ c)
        × (validate host task_schema c ≡ ok tt)
  unfolding compile_unstructured
  compiled_parts brief source raw_writes c h = elim (Bool-cases (trim_space brief == "")) [
    | inl e ↦ cc (rw e at h)
    | inr some_brief ↦ elim (Bool-cases (slash_clean source == ".")) [
      | inl e ↦ cc (rw (some_brief, e) at h)
      | inr some_source ↦
          let rest : List String → Outcome Error Contract =
            validated_template host task_schema brief (slash_clean source) in
          let (_, built) =
            >>-ok (validate_relative_path "brief path" (slash_clean source))
              (normalize_workspace_writes raw_writes >>= rest)
              (rw (some_brief, some_source) at h) in
          let (writes, checked) = bound (normalize_workspace_writes raw_writes) rest c built in
          let compiled : Contract = template_contract brief (slash_clean source) writes in
          let (valid, same) = >>-ok (validate host task_schema compiled) (ok compiled) checked in
          let shape : compiled ≡ c = cc in
          (writes, shape, subst (λ (x : Contract). validate host task_schema x ≡ ok tt) shape valid)
    ]
  ]

  -- A contract compiled from a brief without structure is well formed, and the policy allows each
  -- side effect that its tasks declare, at any time, whatever tickets are revoked.
  pub compile_unstructured-Allowed :
      (brief source : String) (raw_writes : List String) (c : Contract)
      → compile_unstructured host task_schema brief source raw_writes ≡ ok c
      → (revoked : Dict Bool) (now : ℕ)
      → IsWellFormed c
        × All (λ t. All (Allowed host c revoked t now) t.declared_side_effects) c.tasks
  compile_unstructured-Allowed brief source raw_writes c h revoked now =
      let (writes, same, valid) = compiled_parts brief source raw_writes c h in
      (
        validate-IsWellFormed host task_schema c valid,
        subst
            (λ (x : Contract).
              All (λ t. All (Allowed host x revoked t now) t.declared_side_effects) x.tasks)
            same (template-Allowed host revoked now brief (slash_clean source) writes),
      )

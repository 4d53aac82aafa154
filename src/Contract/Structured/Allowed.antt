-- ===== src/Contract/Structured/Allowed.antt =====
-- The policy and the compiler agree on what a contract writes.
use ao_covenant.Base.{
  ℕ, String, Bool, true, false, List, ◌≡◌, refl, All, All-map, ok, ◌>>=◌, >>-ok, >>=-ok, Bool-cases,
  inl, inr, ◌==◌,
}
use ao_covenant.Base.Dict.{Dict}
use ao_covenant.Text.{Host, trim_space}
use ao_covenant.Paths.{slash_clean}
use ao_covenant.Policy.Evaluator.Authority.{write}
use ao_covenant.Policy.Evaluator.Authority.Complete.{Authorised-allow}
use ao_covenant.Contract.Types.{Task, Contract}
use ao_covenant.Contract.Validate.{validate_relative_path}
use ao_covenant.Contract.Validate.Sound.{IsWellFormed, validate-IsWellFormed}
use ao_covenant.Contract.Brief.{StructuredBrief}
use ao_covenant.Contract.Brief.Parse.{parse_structured_brief}
use ao_covenant.Contract.Compile.{
  compile_unstructured, normalize_workspace_writes, validated_template,
}
use ao_covenant.Contract.Compile.Allowed.{compile_unstructured-Allowed}
use ao_covenant.Contract.Structured.{
  as_invalid, as_authored, compile_parsed, compile_brief_with_options,
}
use ao_covenant.Contract.Structured.Declared.{
  WritesDeclared, Contained, build-Contained, as_invalid-ok,
}
use ao_covenant.Run.Executor.{policy_input}
use ao_covenant.Run.Executor.Loop.Effects.{Allowed}

module _ (host : Host) (revoked : Dict Bool) (now : ℕ) (c : Contract) where
  -- Each write that the task declares is allowed by the policy.
  abbrev pub WritesAllowed : Task → Type 0
  WritesAllowed t =
      All (λ a. a.type ≡ "file.write" → Allowed host c revoked t now a) t.declared_side_effects

  Contained-WritesAllowed :
      c.policy.mode ≡ "strict" → (t : Task) → Contained c.workspace.writes t → WritesAllowed t
  Contained-WritesAllowed strict t h =
      All-map (WritesDeclared c.workspace.writes)
        (λ a. a.type ≡ "file.write" → Allowed host c revoked t now a) t.declared_side_effects
        (λ a declared type.
          Authorised-allow host (policy_input c revoked t now) now a "" strict
            (write type (declared type) refl))
        h

module _ (host : Host) (task_schema : Task → Bool) where
  parsed_of :
      (brief source : String) (writes : List String) (c : Contract)
      → compile_brief_with_options host task_schema brief source writes ≡ ok c
      → (parsed : StructuredBrief × Bool) × (compile_parsed host task_schema brief
            (slash_clean source)
            writes
            parsed
          ≡ ok c)
        × ((normalize_workspace_writes writes
                >>= validated_template host task_schema brief (slash_clean source))
              ≡ ok c
            → compile_unstructured host task_schema brief source writes ≡ ok c)
  unfolding compile_brief_with_options compile_unstructured
  parsed_of brief source writes c h = elim (Bool-cases (trim_space brief == "")) [
    | inl e ↦ cc (rw e at h)
    | inr some_brief ↦ elim (Bool-cases (slash_clean source == ".")) [
      | inl e ↦ cc (rw (some_brief, e) at h)
      | inr some_source ↦
          let rest = compile_parsed host task_schema brief (slash_clean source) writes in
          let (valid, h1) =
            >>-ok (as_invalid (validate_relative_path "brief path" (slash_clean source)))
              (as_authored (parse_structured_brief host brief) >>= rest)
              (rw (some_brief, some_source) at h) in
          let (parsed, _, h2) = >>=-ok (as_authored (parse_structured_brief host brief)) rest h1 in
          (
            parsed,
            h2,
            λ template.
                rw
                  (
                    some_brief,
                    some_source,
                    as_invalid-ok (validate_relative_path "brief path" (slash_clean source)) valid,
                  )
                  template,
          )
    ]
  ]

  of_parsed :
      (brief source : String) (writes : List String) (c : Contract) (revoked : Dict Bool) (now : ℕ)
      (parsed : StructuredBrief × Bool)
      → compile_parsed host task_schema brief (slash_clean source) writes parsed ≡ ok c
      → ((normalize_workspace_writes writes
              >>= validated_template host task_schema brief (slash_clean source))
            ≡ ok c
          → compile_unstructured host task_schema brief source writes ≡ ok c)
      → IsWellFormed c × All (WritesAllowed host revoked now c) c.tasks
  unfolding compile_parsed
  of_parsed brief source writes c revoked now (structured, true) built template =
      let (valid, contained) =
        build-Contained host task_schema brief (slash_clean source) writes structured c built in
      (
        validate-IsWellFormed host task_schema c valid,
        All-map (Contained c.workspace.writes) (WritesAllowed host revoked now c) c.tasks
            (Contained-WritesAllowed host revoked now c contained.strict) contained.contained,
      )
  of_parsed brief source writes c revoked now (structured, false) built template =
      let (well_formed, allowed) =
        compile_unstructured-Allowed host task_schema brief source writes c
          (template (as_invalid-ok _ built)) revoked now in
      (
        well_formed,
        All-map (λ t. All (Allowed host c revoked t now) t.declared_side_effects)
            (WritesAllowed host revoked now c) c.tasks
            (λ t.
              All-map (Allowed host c revoked t now)
                (λ a. a.type ≡ "file.write" → Allowed host c revoked t now a)
                t.declared_side_effects (λ a permitted _. permitted))
            allowed,
      )

  -- Whatever the brief, a contract that is compiled from it is well formed, and the policy allows each
  -- file that its tasks write, at any time and whatever tickets are revoked.
  pub compile-WritesAllowed :
      (brief source : String) (writes : List String) (c : Contract)
      → compile_brief_with_options host task_schema brief source writes ≡ ok c
      → (revoked : Dict Bool) (now : ℕ)
      → IsWellFormed c × All (WritesAllowed host revoked now c) c.tasks
  compile-WritesAllowed brief source writes c h revoked now =
      let (parsed, built, template) = parsed_of brief source writes c h in
      of_parsed brief source writes c revoked now parsed built template

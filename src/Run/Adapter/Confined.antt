-- ===== src/Run/Adapter/Confined.antt =====
-- What the default adapter touches.
use ao_covenant.Base.{
  ℕ, String, Bool, ◌||◌, Option, none, some, List, [], ◌∷◌, ◌≡◌, refl, arith, ◌==◌, contains_string,
  Bool-cases, inl, inr, Outcome, ok, err,
}
use ao_covenant.Base.Dict.{Dict}
use ao_covenant.Text.{Host}
use ao_covenant.Policy.Types.{ActionRef}
use ao_covenant.Policy.Evaluator.Authority.{Declared}
use ao_covenant.Contract.Types.{Contract, Task}
use ao_covenant.Run.Types.{Event, EventHashPayload, ArtifactRef}
use ao_covenant.Run.Executor.Loop.{execute_tasks}
use ao_covenant.Run.Executor.Loop.Effects.{Allowed}
use ao_covenant.Run.Executor.Loop.Events.{run_of}
use ao_covenant.Run.Executor.Loop.Kept.{execute_tasks-Kept}
use ao_covenant.Run.Adapter.{
  Machine, demo_output, process_artifact_id, Exit, timed_out, process_failed, exited, fields,
  process_artifact_path, then_do, joined, safe_join, store, write_target, execute_file_write,
  process_target, write_process_artifact, keep_output, spawn, execute_process, perform,
  execute_action, default_services,
}
use ao_covenant.Run.Adapter.Permitted.{
  safe_join-Inside, Output, demo, printed, Writable, Spawnable, write-Declared, spawn-Ticketed,
}

module _ {World : Type 0} (host : Host) (machine : Machine World) (root : String) (c : Contract)
    (revoked : Dict Bool) (process_allowlist : List String) (Inv : World → Type 0)
    (dirs_keep : (w : World) (path contents : String)
      → Writable host machine root c revoked process_allowlist path contents
      → Inv w
      → Inv (machine.make_dir w (machine.dir path)).0)
    (files_keep : (w : World) (path contents : String)
      → Writable host machine root c revoked process_allowlist path contents
      → Inv w
      → Inv (machine.write_file w path contents).0)
    (processes_keep : (w : World) (t : Task) (arguments : List String)
      → Spawnable host machine root c revoked process_allowlist t arguments
      → Inv w
      → Inv (machine.run_process w root arguments t.timeout_secs).0) where
  abbrev Kept : {A : Type 0} → World × Outcome String A → Type 0
  Kept step = Inv step.0

  then_do-Kept :
      {A B : Type 0} (label : String) (step : World × Outcome String A)
      (rest : World → A → World × Outcome String B)
      → Kept step
      → ((w : World) (x : A) → Inv w → Kept (rest w x))
      → Kept (then_do label step rest)
  then_do-Kept label (w, ok x) rest h k = k w x h
  then_do-Kept label (w, err e) rest h k = h

  store-Kept :
      (w : World) (dir_label write_label target contents : String)
      → Writable host machine root c revoked process_allowlist target contents
      → Inv w
      → Kept (store host machine w dir_label write_label target contents)
  unfolding store
  store-Kept w dir_label write_label target contents writable h =
      then_do-Kept dir_label (machine.make_dir w (machine.dir target)) _
        (dirs_keep w target contents writable h)
        (λ w' _ h'.
          then_do-Kept write_label (machine.write_file w' target contents) _
            (files_keep w' target contents writable h') (λ w'' _ h''. h''))

  joined-Kept :
      {A : Type 0} (w : World) (resource contents : String) (out : Outcome String String)
      (rest : String → World × Outcome String A)
      → safe_join host machine root resource ≡ out
      → Output host machine root c revoked process_allowlist resource contents
      → Inv w
      → ((target : String)
          → Writable host machine root c revoked process_allowlist target contents
          → Kept (rest target))
      → Kept (joined host machine w out rest)
  joined-Kept w resource contents (err e) rest h output kept k = kept
  joined-Kept w resource contents (ok target) rest h output kept k = k target (record {
    resource = resource;
    joined = h;
    inside = safe_join-Inside host machine root resource target h;
    output = output;
  })

  file_write-Kept :
      (w : World) (t : Task) (a : ActionRef) (i : ℕ)
      → Declared c.workspace.writes a.resource
      → Inv w
      → Kept (execute_file_write host machine root c.objective w t a i)
  unfolding execute_file_write write_target
  file_write-Kept w t a i declared h =
      let contents = demo_output host machine c.objective t in
      joined-Kept w a.resource contents (safe_join host machine root a.resource)
        (write_target host machine root c.objective w t a i) refl (demo t declared refl) h
        (λ target writable.
          then_do-Kept "" (store host machine w _ _ target contents) _
            (store-Kept w _ _ target contents writable h) (λ w' digest h'. h'))

  process_artifact-Kept :
      (w : World) (t : Task) (i : ℕ) (stream contents : String)
      → Output host machine root c revoked process_allowlist
          (process_artifact_path (process_artifact_id host machine root c.objective t i stream))
          contents
      → Inv w
      → Kept (write_process_artifact host machine root c.objective w t i stream contents)
  unfolding write_process_artifact process_target
  process_artifact-Kept w t i stream contents output h =
      joined-Kept w _ contents (safe_join host machine root _) _ refl output h (λ target writable.
        then_do-Kept "" (store host machine w _ _ target contents) _
          (store-Kept w _ _ target contents writable h) (λ w' digest h'. h'))

  output-Kept :
      (t : Task) (a : ActionRef) (i : ℕ) (arguments : List String) (started : World)
      (step : World × Exit)
      → Spawnable host machine root c revoked process_allowlist t arguments
      → (machine.run_process started root arguments t.timeout_secs).1 ≡ step.1
      → Inv step.0
      → Kept (keep_output host machine root c.objective t a i step)
  unfolding keep_output process_artifact_path
  output-Kept t a i arguments started (w, timed_out timeout) spawnable ran h = h
  output-Kept t a i arguments started (w, process_failed e) spawnable ran h = h
  output-Kept t a i arguments started (w, exited stdout stderr) spawnable ran h =
      then_do-Kept "" (write_process_artifact host machine root c.objective w t i "stdout" stdout) _
        (process_artifact-Kept w t i "stdout" stdout
          (printed t i arguments started stdout stderr spawnable ran (inl (refl, refl))) h)
        (λ w' first h'.
          then_do-Kept ""
            (write_process_artifact host machine root c.objective w' t i "stderr" stderr) _
            (process_artifact-Kept w' t i "stderr" stderr
              (printed t i arguments started stdout stderr spawnable ran (inr (refl, refl))) h')
            (λ w'' second h''. h''))

  spawn-Kept :
      (w : World) (t : Task) (a : ActionRef) (i : ℕ) (words : List String)
      → Spawnable host machine root c revoked process_allowlist t words
      → Inv w
      → Kept (spawn host machine root c.objective w t a i words)
  spawn-Kept w t a i [] spawnable h = h
  spawn-Kept w t a i (program ∷ arguments) spawnable h =
      output-Kept t a i (program ∷ arguments) w
        (machine.run_process w root (program ∷ arguments) t.timeout_secs) spawnable refl
        (processes_keep w t (program ∷ arguments) spawnable h)

  process-Kept :
      (w : World) (t : Task) (a : ActionRef) (i now : ℕ)
      → Allowed host c revoked t now a
      → a.type ≡ "process.spawn"
      → Inv w
      → Kept (execute_process host machine root c.objective process_allowlist w t a i)
  unfolding execute_process
  process-Kept w t a i now allowed type h =
      elim (Bool-cases (contains_string process_allowlist a.resource)) [
        | inr unlisted ↦ rw unlisted h
        | inl listed ↦ rw listed (
            let (ticket, approved) =
              spawn-Ticketed host machine root c revoked process_allowlist t now a allowed type in
            spawn-Kept w t a i (fields a.resource)
              (record {
                action = a;
                now = now;
                words = refl;
                type = type;
                listed = listed;
                allowed = allowed;
                ticket = ticket;
                approved = approved;
              })
              h)
      ]

  perform-Kept :
      (w : World) (t : Task) (a : ActionRef) (i now : ℕ)
      → Allowed host c revoked t now a
      → Inv w
      → Kept (perform host machine root c.objective process_allowlist w t a i)
  unfolding perform
  perform-Kept w t a i now allowed h = elim (Bool-cases (a.type == "file.write")) [
    | inl e ↦ rw e (
        file_write-Kept w t a i
          (write-Declared host machine root c revoked process_allowlist t now a allowed
            (ground arith))
          h)
    | inr not_write ↦ elim (Bool-cases (a.type == "file.read")) [
      | inl e ↦ rw (not_write, e) h
      | inr not_read ↦ elim (Bool-cases (a.type == "process.spawn")) [
        | inl e ↦ rw (not_write, not_read, e) (process-Kept w t a i now allowed (ground arith) h)
        | inr not_spawn ↦
            elim (Bool-cases (a.type == "network.request" || a.type == "claim.publish")) [
              | inl e ↦ rw (not_write, not_read, not_spawn, e) h
              | inr e ↦ rw (not_write, not_read, not_spawn, e) h
            ]
      ]
    ]
  ]

  action-Kept :
      (w : World) (t : Task) (a : ActionRef) (i now : ℕ)
      → Allowed host c revoked t now a
      → Inv w
      → Kept (execute_action host machine root c.objective process_allowlist w t a i)
  unfolding execute_action
  action-Kept w t a i now allowed h = unless (machine.cancelled w)
    where
      unless :
          (cancelled : Option String)
          → Kept {A = List ArtifactRef} (elim cancelled [
            | some e ↦ (w, err e)
            | none ↦ perform host machine root c.objective process_allowlist w t a i
          ])
      unless (some e) = h
      unless none = perform-Kept w t a i now allowed h

  -- With the default adapter, whatever a run does to its host keeps each property that is kept by its
  -- three steps: writing, inside the workspace, the demonstration text of a task to a file that the
  -- contract declares, or what a process printed on a stream to the file named after its task, a number
  -- and the stream; making the directory of such a file; and starting a process that the
  -- operator has listed and the policy allows under a ticket for its task.
  pub execute_tasks-Confined :
      (hash : EventHashPayload → String) (event_schema accepts : Event → Bool) (run_id : String)
      (world : World)
      → Inv world
      → Inv
          (run_of (
            execute_tasks host hash event_schema accepts
              (default_services host machine root c.objective process_allowlist)
              c
              revoked
              run_id
              world)).world
  unfolding default_services
  execute_tasks-Confined hash event_schema accepts run_id world h =
      (execute_tasks-Kept host hash event_schema accepts
        (default_services host machine root c.objective process_allowlist) c revoked run_id Inv
        (λ w t a i now allowed inv. action-Kept w t a i now allowed inv) world h).0

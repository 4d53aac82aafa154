-- ===== src/Run/Adapter.antt =====
-- internal/run/adapter.go: what the default adapter does for a side effect, with `safeJoin` and
-- `verifyWorkspaceWrites` of executor.go.
--
-- `World` is the state of the host; an error of the host is its message.
pub mod Permitted
pub mod Confined
use Prim.Native.Char.{Char}
use ao_covenant.Base.{
  ℕ, ◌+◌, zero, String, ◌<>◌, Bool, not, ◌||◌, Option, none, some, List, [], ◌∷◌, ◌==◌, eqb,
  if◌then◌else◌, contains_string, Outcome, ok, err, ◌>>=◌, ◌>>◌, fail_if, each,
}
use ao_covenant.Integers.{ℤ}
use ao_covenant.Text.{Host, is_space, to_slash, has_prefix, decimal}
use ao_covenant.Paths.{slash_clean, escapes}
use ao_covenant.Policy.Types.{ActionRef}
use ao_covenant.Contract.Types.{Contract, Task}
use ao_covenant.Run.Types.{ArtifactRef, artifact_ref_schema_version}
use ao_covenant.Run.Executor.{Services}

pub record FileInfo : Type 0 where
  pub is_dir : Bool
  pub size : ℕ

-- How a process ends: behind its deadline, with an error, or with what it printed.
pub data Exit : Type 0 where
  timed_out : (timeout : String) → Exit
  process_failed : String → Exit
  exited : (stdout stderr : String) → Exit

-- `ctx.Err()`, `os.MkdirAll`, `os.WriteFile`, `os.Stat`, a file's SHA-256, a command that is run in a
-- directory for so many seconds, `time.Now()`, `filepath.Join` and `filepath.Dir`.
pub record Machine (World : Type 0) : Type 0 where
  pub cancelled : World → Option String
  pub make_dir : World → String → World × Outcome String (Unit {0})
  pub write_file : World → (path contents : String) → World × Outcome String (Unit {0})
  pub stat : World → String → Outcome String FileInfo
  pub file_digest : World → String → Outcome String String
  pub run_process : World → (dir : String) → List String → ℤ → World × Exit
  pub now : World → ℕ
  pub join : (base path : String) → String
  pub dir : String → String

-- `strings.Fields`
abbrev add_rune : Char → List String → List String
add_rune c [] = String.◌∷◌ c "" ∷ []
add_rune c (w ∷ ws) = String.◌∷◌ c w ∷ ws

unfoldable pub split_spaces : String → List String
split_spaces String.[] = "" ∷ []
split_spaces (String.◌∷◌ c s) =
    let rest = split_spaces s in if is_space c then "" ∷ rest else add_rune c rest

unfoldable pub non_empty_words : List String → List String
non_empty_words [] = []
non_empty_words (w ∷ words) = let rest = non_empty_words words in if w == "" then rest else w ∷ rest

unfoldable pub fields : String → List String
fields s = non_empty_words (split_spaces s)

-- An artifact without its producer, which the executor adds.
unfoldable pub artifact_ref : String → String → String → ArtifactRef
artifact_ref artifact_id digest path = record {
  schema_version = artifact_ref_schema_version;
  artifact_id = artifact_id;
  uri = "covenant-artifact://sha256/" <> digest;
  digest = digest;
  media_type = "text/plain";
  producer_event_id = "";
  path = path;
}

abbrev labelled : {A : Type 0} → String → Outcome String A → Outcome String A
labelled label (ok value) = ok value
labelled label (err e) = err (label <> ": " <> e)

abbrev pub then_do :
    {World A B : Type 0}
    → String
    → World × Outcome String A
    → (World → A → World × Outcome String B)
    → World × Outcome String B
then_do label (world, ok value) rest = rest world value
then_do label (world, err e) rest = (world, err (label <> e))

abbrev pub one : Outcome String ArtifactRef → Outcome String (List ArtifactRef)
one (ok a) = ok (a ∷ [])
one (err e) = err e

unfoldable pub process_artifact_path : String → String
process_artifact_path artifact_id = ".covenant/process/" <> (artifact_id <> ".txt")

module _ {World : Type 0} (host : Host) (machine : Machine World) where
  unfoldable pub safe_join : (base workspace_path : String) → Outcome String String
  safe_join base workspace_path =
      let normalized = slash_clean workspace_path in
      let escaping = "path " <> host.quote workspace_path <> " escapes workspace" in
      if normalized == "" || normalized == "."
      then ok base
      else if has_prefix (to_slash workspace_path) "//"
      then err escaping
      else if escapes normalized
      then err escaping
      else ok (machine.join base normalized)

  -- The directory of a file is made, the file is written, and its digest is taken.
  unfoldable pub store :
      World → (dir_label write_label target contents : String) → World × Outcome String String
  store world dir_label write_label target contents =
      then_do dir_label (machine.make_dir world (machine.dir target)) (λ w _.
        then_do write_label (machine.write_file w target contents)
          (λ w' _. (w', machine.file_digest w' target)))

  abbrev pub demo_output : String → Task → String
  demo_output objective task =
      "AO Covenant demo output\n\nobjective: " <> objective <> "\ntask: " <> task.id <> "\n"

  abbrev pub joined :
      {A : Type 0}
      → World
      → Outcome String String
      → (String → World × Outcome String A)
      → World × Outcome String A
  joined world (ok target) rest = rest target
  joined world (err e) rest = (world, err e)

  module _ (root objective : String) where
    unfoldable pub write_target :
        World → Task → ActionRef → ℕ → String → World × Outcome String ArtifactRef
    write_target world task action index target =
        then_do ""
          (store world "create output dir: "
            ("write side effect " <> host.quote action.resource <> ": ") target
            (demo_output objective task))
          (λ w digest. (
            w,
            ok (
                artifact_ref (task.id <> "-artifact-" <> decimal (index + 1)) digest
                  (slash_clean action.resource)),
          ))

    unfoldable pub execute_file_write :
        World → Task → ActionRef → ℕ → World × Outcome String ArtifactRef
    execute_file_write world task action index =
        joined world (safe_join root action.resource) (write_target world task action index)

    unfoldable pub read_target : World → Task → ActionRef → ℕ → String → Outcome String ArtifactRef
    read_target world task action index target =
        labelled ("read side effect " <> host.quote action.resource) (machine.stat world target)
        >>= (λ info.
            fail_if info.is_dir
              ("file.read resource " <> host.quote action.resource <> " is a directory")
            >> (labelled ("digest read side effect " <> host.quote action.resource)
                  (machine.file_digest world target)
                >>= (λ digest. ok (
                    artifact_ref (task.id <> "-read-" <> decimal (index + 1)) digest
                      (slash_clean action.resource)))))

    unfoldable pub execute_file_read : World → Task → ActionRef → ℕ → Outcome String ArtifactRef
    execute_file_read world task action index =
        safe_join root action.resource >>= read_target world task action index

    abbrev pub process_artifact_id : Task → ℕ → String → String
    process_artifact_id task index stream =
        task.id <> "-process-" <> decimal (index + 1) <> "-" <> stream

    unfoldable pub process_target :
        World → (artifact_id stream contents target : String) → World × Outcome String ArtifactRef
    process_target world artifact_id stream contents target =
        then_do ""
          (store world "create process artifact dir: " ("write process " <> stream <> " artifact: ")
            target contents)
          (λ w digest.
            (w, ok (artifact_ref artifact_id digest (process_artifact_path artifact_id))))

    unfoldable pub write_process_artifact :
        World → Task → ℕ → (stream contents : String) → World × Outcome String ArtifactRef
    write_process_artifact world task index stream contents =
        let artifact_id = process_artifact_id task index stream in
        joined world (safe_join root (process_artifact_path artifact_id))
          (process_target world artifact_id stream contents)

    -- The process is run, and what it printed is kept.
    unfoldable pub keep_output :
        Task → ActionRef → ℕ → World × Exit → World × Outcome String (List ArtifactRef)
    keep_output task action index (world, timed_out timeout) =
        (world, err ("process.spawn timed out after " <> timeout))
    keep_output task action index (world, process_failed e) =
        (world, err ("process.spawn " <> host.quote action.resource <> " failed: " <> e))
    keep_output task action index (world, exited stdout stderr) =
        then_do "" (write_process_artifact world task index "stdout" stdout) (λ w first.
          then_do "" (write_process_artifact w task index "stderr" stderr)
            (λ w' second. (w', ok (first ∷ second ∷ []))))

    abbrev pub spawn :
        World → Task → ActionRef → ℕ → List String → World × Outcome String (List ArtifactRef)
    spawn world task action index [] = (world, err "process.spawn resource is empty")
    spawn world task action index (program ∷ arguments) =
        keep_output task action index
          (machine.run_process world root (program ∷ arguments) task.timeout_secs)

    unfoldable pub execute_process :
        List String → World → Task → ActionRef → ℕ → World × Outcome String (List ArtifactRef)
    execute_process process_allowlist world task action index =
        if not (contains_string process_allowlist action.resource)
        then (
          world,
          err ("process.spawn resource " <> host.quote action.resource <> " is not allowlisted"),
        )
        else spawn world task action index (fields action.resource)

    abbrev pub written :
        World × Outcome String ArtifactRef → World × Outcome String (List ArtifactRef)
    written (world, out) = (world, one out)

    -- What is done for an action of a context that is not cancelled.
    unfoldable pub perform :
        List String → World → Task → ActionRef → ℕ → World × Outcome String (List ArtifactRef)
    perform process_allowlist world task action index =
        if action.type == "file.write"
        then written (execute_file_write world task action index)
        else if action.type == "file.read"
        then (world, one (execute_file_read world task action index))
        else if action.type == "process.spawn"
        then execute_process process_allowlist world task action index
        else if action.type == "network.request" || action.type == "claim.publish"
        then (world, err ("no default adapter for " <> action.type))
        else (world, err ("unsupported side effect type " <> host.quote action.type))

    unfoldable pub execute_action :
        List String → World → Task → ActionRef → ℕ → World × Outcome String (List ArtifactRef)
    execute_action process_allowlist world task action index = elim (machine.cancelled world) [
      | some e ↦ (world, err e)
      | none ↦ perform process_allowlist world task action index
    ]

    unfoldable pub verify_workspace_write : World → String → Outcome String (Unit {0})
    verify_workspace_write world write_path = safe_join root write_path >>= (λ target.
        labelled ("declared write " <> host.quote write_path <> " is unavailable")
          (machine.stat world target)
        >>= (λ info.
            fail_if (info.is_dir || eqb info.size 0)
              ("declared write " <> host.quote write_path <> " is not a non-empty file")))

    -- The services of the executor, with the default adapter.
    unfoldable pub default_services : List String → Services World
    default_services process_allowlist = record {
      execute_action = execute_action process_allowlist;
      verify_workspace_writes = λ world. each (verify_workspace_write world);
      cancelled = machine.cancelled;
      now = machine.now;
    }

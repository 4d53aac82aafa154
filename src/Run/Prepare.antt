-- ===== src/Run/Prepare.antt =====
-- What `Execute` does before its first event, in internal/run/executor.go: the checks of the contract,
-- the directories and the run id, and the snapshots of the inputs.
pub mod Results
pub mod Snapshots
pub mod Sound
use Prim.Native.Char.{Char, code}
use ao_covenant.Base.{
  ℕ, ◌+◌, String, ◌<>◌, Bool, true, not, ◌||◌, ◌&&◌, Option, none, some, List, [], ◌∷◌, eqb, ◌==◌,
  if◌then◌else◌, Outcome, ok, err, ◌>>=◌, ◌>>◌, fail_if,
}
use ao_covenant.Base.Dict.{Dict}
use ao_covenant.Text.{Host, trim_space, to_lower, contains, decimal6}
use ao_covenant.Paths.{slash_clean}
use ao_covenant.Contract.Types.{Contract, Task}
use ao_covenant.Contract.Validate.{Error, validate, is_reserved_windows_name, first_invalid}
use ao_covenant.Run.Types.{InputSnapshot, input_snapshot_schema_version}
use ao_covenant.Run.Adapter.{Machine, FileInfo, safe_join}

-- What a run id is refused for.
pub data RunIdError : Type 0 where
  run_id_required run_id_has_whitespace run_id_not_lowercase run_id_reserved : RunIdError
  run_id_invalid_character : Char → RunIdError

pub data PrepareError : Type 0 where
  contract_schema_invalid : PrepareError
  contract_invalid : Error → PrepareError
  dir_required : (label : String) → PrepareError
  run_id_invalid : RunIdError → PrepareError
  path_failed : (message : String) → PrepareError
  read_unavailable read_is_directory : (path : String) → PrepareError
  input_unavailable input_is_directory : (path : String) → PrepareError
  host_failed : (message : String) → PrepareError

-- The fields of `Options` that are used before the loop.
pub record Options : Type 0 where
  pub workspace_dir : String
  pub out_dir : String
  pub run_id : String

-- More of the host: `filepath.Abs`, `run-%d` of the time, `contract.Digest`, `os.ReadFile`, and the
-- creation of the ledger.
pub record Directories (World : Type 0) : Type 0 where
  pub absolute : String → Outcome String String
  pub default_run_id : World → String
  pub contract_digest : Contract → Outcome String String
  pub read_file : World → String → Outcome String String
  pub create_ledger : World → String → World × Outcome String (Unit {0})

abbrev pub of_host : {A : Type 0} → Outcome String A → Outcome PrepareError A
of_host (ok value) = ok value
of_host (err e) = err (host_failed e)

abbrev pub of_path : {A : Type 0} → Outcome String A → Outcome PrepareError A
of_path (ok value) = ok value
of_path (err e) = err (path_failed e)

abbrev pub of_contract : Outcome Error (Unit {0}) → Outcome PrepareError (Unit {0})
of_contract (ok done) = ok tt
of_contract (err e) = err (contract_invalid e)

unfoldable pub absolute_dir :
    (String → Outcome String String) → (raw label : String) → Outcome PrepareError String
absolute_dir absolute raw label =
    if trim_space raw == "" then err (dir_required label) else of_host (absolute raw)

abbrev valid_runes : Option Char → Outcome PrepareError (Unit {0})
valid_runes none = ok tt
valid_runes (some c) = err (run_id_invalid (run_id_invalid_character c))

unfoldable pub validate_run_id : Host → String → Outcome PrepareError (Unit {0})
validate_run_id host raw =
    fail_if (raw == "") (run_id_invalid run_id_required)
    >> fail_if (not (raw == trim_space raw)) (run_id_invalid run_id_has_whitespace)
    >> fail_if (not (raw == to_lower host raw)) (run_id_invalid run_id_not_lowercase)
    >> fail_if (is_reserved_windows_name raw) (run_id_invalid run_id_reserved)
    >> valid_runes (first_invalid raw)

-- `path.Ext`: the last dot behind the last slash, and what follows it.
abbrev from_here : Char → String → Option String → Option String
from_here c s (some ext) = some ext
from_here c s none = if eqb (code c) 46 && not (contains s "/") then some (String.◌∷◌ c s) else none

unfoldable pub last_ext : String → Option String
last_ext String.[] = none
last_ext (String.◌∷◌ c s) = from_here c s (last_ext s)

abbrev ext_or_empty : Option String → String
ext_or_empty none = ""
ext_or_empty (some ext) = ext

unfoldable pub media_type_for_path : Host → String → String
media_type_for_path host file_path =
    let ext = to_lower host (ext_or_empty (last_ext file_path)) in
    if ext == ".md" || ext == ".markdown"
    then "text/markdown"
    else if ext == ".txt" || ext == ".log"
    then "text/plain"
    else if ext == ".json"
    then "application/json"
    else "application/octet-stream"

-- A step that may change the host, and what follows it.
abbrev pub proceed :
    {World A B : Type 0}
    → World × Outcome PrepareError A
    → (World → A → World × Outcome PrepareError B)
    → World × Outcome PrepareError B
proceed (world, ok value) rest = rest world value
proceed (world, err e) rest = (world, err e)

abbrev pub hosted : {World A : Type 0} → World × Outcome String A → World × Outcome PrepareError A
hosted (world, out) = (world, of_host out)

module _ {World : Type 0} (host : Host) (machine : Machine World) (dirs : Directories World) where
  abbrev pub is_file :
      (unavailable is_directory : PrepareError)
      → Outcome String FileInfo
      → Outcome PrepareError (Unit {0})
  is_file unavailable is_directory (err e) = err unavailable
  is_file unavailable is_directory (ok info) = fail_if info.is_dir is_directory

  -- The file is inside the workspace, and there.
  unfoldable pub verify_declared_read : World → String → String → Outcome PrepareError (Unit {0})
  verify_declared_read world root read_path =
      of_path (safe_join host machine root read_path) >>= (λ target.
        is_file (read_unavailable read_path) (read_is_directory read_path)
          (machine.stat world target))

  unfoldable pub verify_declared_reads :
      World → String → List String → Outcome PrepareError (Unit {0})
  verify_declared_reads world root [] = ok tt
  verify_declared_reads world root (read_path ∷ reads) =
      verify_declared_read world root read_path >> verify_declared_reads world root reads

  abbrev pub snapshot_path_of : String → String
  snapshot_path_of source_path = slash_clean ("input-snapshots/" <> slash_clean source_path)

  unfoldable pub input_snapshot : ℕ → String → String → InputSnapshot
  input_snapshot index source_path digest = record {
    schema_version = input_snapshot_schema_version;
    snapshot_id = "input-" <> decimal6 (index + 1);
    source_path = slash_clean source_path;
    snapshot_path = snapshot_path_of source_path;
    digest = digest;
    media_type = media_type_for_path host (slash_clean source_path);
  }

  unfoldable pub write_input_snapshot :
      World → (root run_dir source_path : String) → ℕ → World × Outcome PrepareError InputSnapshot
  write_input_snapshot world root run_dir source_path index =
      proceed (world, of_path (safe_join host machine root source_path))
        (λ w source.
          proceed
            (
              w,
              is_file (input_unavailable source_path) (input_is_directory source_path)
                  (machine.stat w source),
            )
            (λ w1 _.
              proceed (w1, of_host (dirs.read_file w1 source))
                (λ w2 contents.
                  proceed
                    (w2, of_path (safe_join host machine run_dir (snapshot_path_of source_path)))
                    (λ w3 target.
                      proceed (hosted (machine.make_dir w3 (machine.dir target))) (λ w4 _.
                        proceed (hosted (machine.write_file w4 target contents)) (λ w5 _.
                          proceed (w5, of_host (machine.file_digest w5 target))
                            (λ w6 digest. (w6, ok (input_snapshot index source_path digest)))))))))

  unfoldable pub snapshot_declared_reads :
      World
      → (root run_dir : String) → ℕ
      → List String
      → World × Outcome PrepareError (List InputSnapshot)
  snapshot_declared_reads world root run_dir index [] = (world, ok [])
  snapshot_declared_reads world root run_dir index (read_path ∷ reads) =
      proceed (write_input_snapshot world root run_dir read_path index) (λ w snapshot.
        proceed (snapshot_declared_reads w root run_dir (index + 1) reads)
          (λ w' snapshots. (w', ok (snapshot ∷ snapshots))))

  -- What the loop is begun with.
  pub record Prepared : Type 0 where
    pub workspace_root : String
    pub run_dir : String
    pub run_id : String
    pub contract_digest : String
    pub input_snapshots : List InputSnapshot

  abbrev pub chosen_run_id : World → String → String
  chosen_run_id world raw =
      if trim_space raw == "" then dirs.default_run_id world else trim_space raw

  module _ (contract_schema : Contract → Bool) (task_schema : Task → Bool) where
    unfoldable pub check_reads :
        World
        → Contract
        → Options
        → (out_dir root : String) → Outcome PrepareError (String × String × String × String)
    check_reads world c options out_dir root =
        let run_id = chosen_run_id world options.run_id in
        verify_declared_reads world root c.workspace.reads
        >> (of_host (dirs.contract_digest c)
            >>= (λ digest. ok (root, machine.join out_dir run_id, run_id, digest)))

    unfoldable pub check_run_id :
        World
        → Contract
        → Options
        → (workspace_dir out_dir : String)
        → Outcome PrepareError (String × String × String × String)
    check_run_id world c options workspace_dir out_dir =
        validate_run_id host (chosen_run_id world options.run_id)
        >> (of_path (safe_join host machine workspace_dir c.workspace.root)
            >>= check_reads world c options out_dir)

    unfoldable pub check_out_dir :
        World
        → Contract
        → Options
        → (workspace_dir : String) → Outcome PrepareError (String × String × String × String)
    check_out_dir world c options workspace_dir =
        absolute_dir dirs.absolute options.out_dir "out"
        >>= check_run_id world c options workspace_dir

    -- The checks, which leave the host as it is: the root of the workspace, the run's directory and id,
    -- and the digest of the contract.
    unfoldable pub check_execution :
        World → Contract → Options → Outcome PrepareError (String × String × String × String)
    check_execution world c options =
        fail_if (not (contract_schema c)) contract_schema_invalid
        >> of_contract (validate host task_schema c)
        >> (absolute_dir dirs.absolute options.workspace_dir "workspace"
            >>= check_out_dir world c options)

    -- The directory of the run, the snapshots, and the ledger.
    unfoldable pub open_run :
        World → Contract → String × String × String × String → World × Outcome PrepareError Prepared
    open_run world c (root, run_dir, run_id, digest) =
        proceed (hosted (machine.make_dir world run_dir)) (λ w _.
          proceed (snapshot_declared_reads w root run_dir 0 c.workspace.reads) (λ w' snapshots.
            proceed (hosted (dirs.create_ledger w' (machine.join run_dir "events.ndjson")))
              (λ w'' _. (
                w'',
                ok (record {
                  workspace_root = root;
                  run_dir = run_dir;
                  run_id = run_id;
                  contract_digest = digest;
                  input_snapshots = snapshots;
                }),
              ))))

    unfoldable pub prepare : World → Contract → Options → World × Outcome PrepareError Prepared
    prepare world c options = proceed (world, check_execution world c options) (λ w. open_run w c)

-- ===== src/Verify/Files.antt =====
-- The checks of internal/verify/verifier.go on the artifacts and the input snapshots of a run.
pub mod Intact
use ao_covenant.Base.{
  String, ◌<>◌, Bool, true, false, not, ◌&&◌, ◌||◌, Option, none, some, List, ◌==◌, if◌then◌else◌,
  Outcome, ok, err, ◌>>=◌, ◌>>◌, fail_if, each,
}
use ao_covenant.Text.{to_slash, has_prefix}
use ao_covenant.Paths.{slash_clean, escapes}
use ao_covenant.Run.Types.{ArtifactRef, InputSnapshot}
use ao_covenant.Verify.Types.{
  Error, Check, uri_mismatch, path_required, path_escapes, path_unavailable, path_is_directory,
  not_under_input_snapshots, digest_mismatch, digest_unavailable,
}

-- The host's files as they stand while the verifier runs, and its file paths: `os.Stat` with whether
-- it is a directory, `os.ReadFile`, SHA-256 in hexadecimal, `filepath.Join` of a directory with a
-- slash path, `filepath.Abs`, `filepath.Clean`, `filepath.Base` and `filepath.Dir`.
pub record Disk : Type 0 where
  pub is_directory : String → Option Bool
  pub contents : String → Option String
  pub sha256 : String → String
  pub join : String → String → String
  pub abs : String → Option String
  pub clean_path : String → String
  pub base : String → String
  pub dir : String → String

-- `inputSnapshotPath` and `workspaceArtifactPath`, as the normalised path inside the directory.
unfoldable pub workspace_artifact_path : String → String → Outcome Error String
workspace_artifact_path id raw =
    let normalized = slash_clean raw in
    if normalized == "" || normalized == "."
    then err (path_required id raw)
    else if has_prefix (to_slash raw) "//"
    then err (path_escapes id raw)
    else if escapes normalized
    then err (path_escapes id raw)
    else ok normalized

unfoldable pub input_snapshot_path : String → String → Outcome Error String
input_snapshot_path id raw =
    let normalized = slash_clean raw in
    if normalized == "" || normalized == "."
    then err (path_required id raw)
    else if has_prefix (to_slash raw) "//"
    then err (path_escapes id raw)
    else if escapes normalized
    then err (path_escapes id raw)
    else if not (normalized == "input-snapshots") && not (has_prefix normalized "input-snapshots/")
    then err (not_under_input_snapshots id raw)
    else ok normalized

module _ (disk : Disk) where
  unfoldable pub file_digest : String → Option String
  file_digest path = elim (disk.contents path) [
    | none ↦ none
    | some bytes ↦ some (disk.sha256 bytes)
  ]

  -- What both loops do with the file, from `os.Stat` on.
  unfoldable pub check_file : (id raw digest target : String) → Check
  unfolding file_digest
  check_file id raw digest target = elim (disk.is_directory target) [
    | none ↦ err (path_unavailable id raw)
    | some true ↦ err (path_is_directory id raw)
    | some false ↦ elim (file_digest target) [
      | none ↦ err (path_unavailable id raw)
      | some actual ↦ fail_if (not (actual == digest)) (digest_mismatch id raw digest actual)
    ]
  ]

  unfoldable pub verify_artifact : String → ArtifactRef → Check
  verify_artifact workspace_dir a =
      fail_if (not (a.uri == ("covenant-artifact://sha256/" <> a.digest)))
        (uri_mismatch a.artifact_id a.uri a.digest)
      >> (workspace_artifact_path a.artifact_id a.path >>= λ normalized.
          check_file a.artifact_id a.path a.digest (disk.join workspace_dir normalized))

  unfoldable pub verify_artifacts : String → List ArtifactRef → Check
  unfolding verify_artifact
  verify_artifacts workspace_dir = each (verify_artifact workspace_dir)

  unfoldable pub verify_input_snapshot : String → InputSnapshot → Check
  verify_input_snapshot run_dir s =
      input_snapshot_path s.snapshot_id s.snapshot_path >>= λ normalized.
      check_file s.snapshot_id s.snapshot_path s.digest (disk.join run_dir normalized)

  unfoldable pub verify_input_snapshots : String → List InputSnapshot → Check
  unfolding verify_input_snapshot
  verify_input_snapshots run_dir = each (verify_input_snapshot run_dir)

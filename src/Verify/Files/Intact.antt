-- ===== src/Verify/Files/Intact.antt =====
-- What a file that the verifier accepts is.
use ao_covenant.Base.{
  ℕ, String, ◌<>◌, true, false, some, List, ◌≡◌, ◌⊎◌, arith, ok, All, All-map, each-ok,
}
use ao_covenant.Text.{to_slash, has_prefix}
use ao_covenant.Paths.{slash_clean, escapes, is_abs, split_slash}
use ao_covenant.Paths.Walk.{walk, escapes-walk}
use ao_covenant.Run.Types.{ArtifactRef, InputSnapshot}
use ao_covenant.Verify.Files.{
  Disk, workspace_artifact_path, input_snapshot_path, file_digest, check_file, verify_artifact,
  verify_artifacts, verify_input_snapshot, verify_input_snapshots,
}

-- A relative path whose own elements never lead above the directory that it is joined to.
abbrev pub Inside : String → Type 0
Inside raw =
    (is_abs (to_slash raw) ≡ false)
    × ((depth : ℕ) × (walk 0 (split_slash (to_slash raw)) ≡ some depth))

-- A plain file stands there, with this digest.
abbrev pub HasDigest : Disk → String → String → Type 0
HasDigest disk target digest =
    (disk.is_directory target ≡ some false)
    × ((bytes : String) × (disk.contents target ≡ some bytes) × (disk.sha256 bytes ≡ digest))

pub record IsIntactArtifact (disk : Disk) (workspace_dir : String) (a : ArtifactRef) : Type 0 where
  pub addressed : a.uri ≡ ("covenant-artifact://sha256/" <> a.digest)
  pub inside : Inside a.path
  pub stored : HasDigest disk (disk.join workspace_dir (slash_clean a.path)) a.digest

pub record IsIntactSnapshot (disk : Disk) (run_dir : String) (s : InputSnapshot) : Type 0 where
  pub inside : Inside s.snapshot_path
  pub under :
      (slash_clean s.snapshot_path ≡ "input-snapshots")
      ⊎ (has_prefix (slash_clean s.snapshot_path) "input-snapshots/" ≡ true)
  pub stored : HasDigest disk (disk.join run_dir (slash_clean s.snapshot_path)) s.digest

module _ (disk : Disk) where
  check_file-HasDigest :
      (id raw digest target : String)
      → check_file disk id raw digest target ≡ ok tt
      → HasDigest disk target digest
  unfolding check_file file_digest
  check_file-HasDigest id raw digest target h = ground arith

  artifact_parts :
      (dir : String) (a : ArtifactRef)
      → verify_artifact disk dir a ≡ ok tt
      → (a.uri ≡ ("covenant-artifact://sha256/" <> a.digest))
        × (escapes (slash_clean a.path) ≡ false)
        × (check_file disk a.artifact_id a.path a.digest (disk.join dir (slash_clean a.path))
            ≡ ok tt)
  unfolding verify_artifact workspace_artifact_path
  artifact_parts dir a h = ground arith

  artifact-IsIntact :
      (dir : String) (a : ArtifactRef)
      → verify_artifact disk dir a ≡ ok tt
      → IsIntactArtifact disk dir a
  artifact-IsIntact dir a h =
      let (addressed, inside, stored) = artifact_parts dir a h in
      record {
        addressed = addressed;
        inside = escapes-walk a.path inside;
        stored =
            check_file-HasDigest a.artifact_id a.path a.digest (disk.join dir (slash_clean a.path))
              stored;
      }

  snapshot_parts :
      (dir : String) (s : InputSnapshot)
      → verify_input_snapshot disk dir s ≡ ok tt
      → (escapes (slash_clean s.snapshot_path) ≡ false)
        × ((slash_clean s.snapshot_path ≡ "input-snapshots")
            ⊎ (has_prefix (slash_clean s.snapshot_path) "input-snapshots/" ≡ true))
        × (check_file disk s.snapshot_id s.snapshot_path s.digest
              (disk.join dir (slash_clean s.snapshot_path))
            ≡ ok tt)
  unfolding verify_input_snapshot input_snapshot_path
  snapshot_parts dir s h = ground arith

  snapshot-IsIntact :
      (dir : String) (s : InputSnapshot)
      → verify_input_snapshot disk dir s ≡ ok tt
      → IsIntactSnapshot disk dir s
  snapshot-IsIntact dir s h =
      let (inside, under, stored) = snapshot_parts dir s h in
      record {
        inside = escapes-walk s.snapshot_path inside;
        under = under;
        stored =
            check_file-HasDigest s.snapshot_id s.snapshot_path s.digest
              (disk.join dir (slash_clean s.snapshot_path)) stored;
      }

  -- Where the artifacts verify, each is addressed by its digest, has a path that stays inside the
  -- workspace, and is a plain file there whose contents have that digest.
  pub artifacts-IsIntactArtifact :
      (workspace_dir : String) (artifacts : List ArtifactRef)
      → verify_artifacts disk workspace_dir artifacts ≡ ok tt
      → All (IsIntactArtifact disk workspace_dir) artifacts
  unfolding verify_artifacts
  artifacts-IsIntactArtifact dir artifacts h =
      All-map _ _ artifacts (artifact-IsIntact dir) (each-ok _ artifacts h)

  -- Where the input snapshots verify, each is under the run's snapshot directory, on a path that
  -- stays inside the run directory, and is a plain file there whose contents have its digest.
  pub snapshots-IsIntactSnapshot :
      (run_dir : String) (snapshots : List InputSnapshot)
      → verify_input_snapshots disk run_dir snapshots ≡ ok tt
      → All (IsIntactSnapshot disk run_dir) snapshots
  unfolding verify_input_snapshots
  snapshots-IsIntactSnapshot dir snapshots h =
      All-map _ _ snapshots (snapshot-IsIntact dir) (each-ok _ snapshots h)

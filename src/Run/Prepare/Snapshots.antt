-- ===== src/Run/Prepare/Snapshots.antt =====
-- What a snapshot of an input is.
use ao_covenant.Base.{ℕ, ◌+◌, String, ◌<>◌, List, [], ◌∷◌, ◌≡◌, refl, ap, Outcome, ok, subst}
use ao_covenant.Text.{Host, decimal6}
use ao_covenant.Paths.{slash_clean}
use ao_covenant.Run.Types.{InputSnapshot}
use ao_covenant.Run.Adapter.{Machine, safe_join}
use ao_covenant.Run.Adapter.Permitted.{Inside, safe_join-Inside}
use ao_covenant.Run.Prepare.{
  PrepareError, Directories, of_path, of_host, hosted, is_file, input_unavailable,
  input_is_directory, input_snapshot, snapshot_path_of, write_input_snapshot,
  snapshot_declared_reads,
}
use ao_covenant.Run.Prepare.Results.{of_path-ok, of_host-ok, ok-injective, proceed-step}

module _ {World : Type 0} (host : Host) (machine : Machine World) (dirs : Directories World)
    (root run_dir : String) where
  -- The snapshot of an input: the contents of its file in the workspace, at that time, were written
  -- below the run's directory at the path that the snapshot names, and the digest is that of the file
  -- that was written.
  pub record Taken (before : World) (index : ℕ) (read_path : String) (snapshot : InputSnapshot)
      (after : World) : Type 0 where
    pub source : String
    pub found : safe_join host machine root read_path ≡ ok source
    pub contents : String
    pub copied : dirs.read_file before source ≡ ok contents
    pub target : String
    pub placed : safe_join host machine run_dir snapshot.snapshot_path ≡ ok target
    pub inside : Inside host machine run_dir target
    pub written :
        machine.write_file (machine.make_dir before (machine.dir target)).0 target contents
        ≡ (after, ok tt)
    pub digested : machine.file_digest after target ≡ ok snapshot.digest
    pub source_path : snapshot.source_path ≡ slash_clean read_path
    pub snapshot_path :
        snapshot.snapshot_path ≡ slash_clean ("input-snapshots/" <> slash_clean read_path)
    pub snapshot_id : snapshot.snapshot_id ≡ ("input-" <> decimal6 (index + 1))

  -- The inputs are taken one after the other, each for its own snapshot.
  abbrev pub AllTaken : World → ℕ → List String → List InputSnapshot → Type 0
  AllTaken before index [] [] = Unit
  AllTaken before index (r ∷ reads) (s ∷ snapshots) =
      (after : World) × Taken before index r s after × AllTaken after (index + 1) reads snapshots
  AllTaken before index _ _ = ⊥

  -- What was read, written and digested makes the snapshot.
  snapshot-Taken :
      (before : World) (index : ℕ) (read_path source contents target digest : String)
      → of_path (safe_join host machine root read_path) ≡ ok source
      → of_host (dirs.read_file before source) ≡ ok contents
      → of_path (safe_join host machine run_dir (snapshot_path_of host machine dirs read_path))
        ≡ ok target
      → let file =
          machine.write_file (machine.make_dir before (machine.dir target)).0 target contents in
        of_host file.1 ≡ ok tt
        → of_host (machine.file_digest file.0 target) ≡ ok digest
        → Taken before index read_path
            (input_snapshot host machine dirs index read_path digest)
            file.0
  unfolding input_snapshot
  snapshot-Taken before index read_path source contents target digest found copied placed written
        digested =
      let path = snapshot_path_of host machine dirs read_path in
      let file =
        machine.write_file (machine.make_dir before (machine.dir target)).0 target contents in
      let below = of_path-ok (safe_join host machine run_dir path) placed in
      record {
        source = source;
        found = of_path-ok (safe_join host machine root read_path) found;
        contents = contents;
        copied = of_host-ok (dirs.read_file before source) copied;
        target = target;
        placed = below;
        inside = safe_join-Inside host machine run_dir path target below;
        written = ap (λ (o : Outcome String (Unit {0})). (file.0, o)) (of_host-ok file.1 written);
        digested = of_host-ok (machine.file_digest file.0 target) digested;
        source_path = refl;
        snapshot_path = refl;
        snapshot_id = refl;
      }

  -- A pair of the host that is left and what was made.
  Taken-pair :
      (before left after : World) (index : ℕ) (read_path : String) (made snapshot : InputSnapshot)
      → ◌≡◌ {A = World × Outcome PrepareError InputSnapshot} (left, ok made) (after, ok snapshot)
      → Taken before index read_path made left
      → Taken before index read_path snapshot after
  Taken-pair before left after index read_path made snapshot h taken =
      subst (Taken before index read_path snapshot)
        (ap (λ (p : World × Outcome PrepareError InputSnapshot). p.0) h)
        (subst (λ (s : InputSnapshot). Taken before index read_path s left)
          (ok-injective (ap (λ (p : World × Outcome PrepareError InputSnapshot). p.1) h)) taken)

  abbrev Taking : Type 0
  Taking = World × Outcome PrepareError (List InputSnapshot)

  write_input_snapshot-Taken :
      (before : World) (index : ℕ) (read_path : String) (snapshot : InputSnapshot) (after : World)
      → write_input_snapshot host machine dirs before root run_dir read_path index
        ≡ (after, ok snapshot)
      → Taken before index read_path snapshot after
  unfolding write_input_snapshot
  write_input_snapshot-Taken before index read_path snapshot after h0 =
      let path = snapshot_path_of host machine dirs read_path in
      let (source, found, h1) =
        proceed-step (before, of_path (safe_join host machine root read_path)) _ after snapshot
          h0 in
      let (_, _, h2) =
        proceed-step
          (
            before,
            is_file host machine dirs (input_unavailable read_path) (input_is_directory read_path)
                (machine.stat before source),
          )
          _ after snapshot h1 in
      let (contents, copied, h3) =
        proceed-step (before, of_host (dirs.read_file before source)) _ after snapshot h2 in
      let (target, placed, h4) =
        proceed-step (before, of_path (safe_join host machine run_dir path)) _ after snapshot h3 in
      let dir = machine.make_dir before (machine.dir target) in
      let (_, _, h5) = proceed-step (hosted dir) _ after snapshot h4 in
      let file = machine.write_file dir.0 target contents in
      let (_, written, h6) = proceed-step (hosted file) _ after snapshot h5 in
      let (digest, digested, h7) =
        proceed-step (file.0, of_host (machine.file_digest file.0 target)) _ after snapshot h6 in
      Taken-pair before file.0 after index read_path
        (input_snapshot host machine dirs index read_path digest) snapshot h7
        (snapshot-Taken before index read_path source contents target digest found copied placed
          written digested)

  pub snapshots-AllTaken :
      (before : World) (index : ℕ) (reads : List String) (snapshots : List InputSnapshot)
      (after : World)
      → snapshot_declared_reads host machine dirs before root run_dir index reads
        ≡ (after, ok snapshots)
      → AllTaken before index reads snapshots
  unfolding snapshot_declared_reads
  snapshots-AllTaken before index [] snapshots after h =
      subst (AllTaken before index []) (ok-injective (ap (λ (p : Taking). p.1) h)) tt
  snapshots-AllTaken before index (r ∷ reads) snapshots after h =
      let step = write_input_snapshot host machine dirs before root run_dir r index in
      let (first, made, h1) = proceed-step step _ after snapshots h in
      let later = snapshot_declared_reads host machine dirs step.0 root run_dir (index + 1) reads in
      let (rest, kept, h2) = proceed-step later _ after snapshots h1 in
      subst (AllTaken before index (r ∷ reads)) (ok-injective (ap (λ (p : Taking). p.1) h2)) (
        step.0,
        write_input_snapshot-Taken before index r first step.0
            (ap (λ (o : Outcome PrepareError InputSnapshot). (step.0, o)) made),
        snapshots-AllTaken step.0 (index + 1) reads rest later.0
            (ap (λ (o : Outcome PrepareError (List InputSnapshot)). (later.0, o)) kept),
      )

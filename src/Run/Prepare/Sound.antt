-- ===== src/Run/Prepare/Sound.antt =====
-- What holds when a run begins.
use ao_covenant.Base.{
  String, Bool, false, not, List, [], ◌∷◌, ◌≡◌, refl, ap, arith, subst, Bool-cases, inl, inr, All,
  Outcome, ok, err, ◌>>=◌, ◌>>◌, >>-ok, >>=-ok, fail_if, ◌==◌,
}
use ao_covenant.Text.{Host, trim_space}
use ao_covenant.Contract.Types.{Contract, Task}
use ao_covenant.Contract.Validate.{validate}
use ao_covenant.Contract.Validate.Sound.{IsWellFormed, validate-IsWellFormed}
use ao_covenant.Run.Types.{InputSnapshot}
use ao_covenant.Run.Prepare.Results.{
  of_path-ok, of_host-ok, of_contract-ok, ok-injective, proceed-ok,
}
use ao_covenant.Run.Prepare.Snapshots.{AllTaken, snapshots-AllTaken}
use ao_covenant.Run.Adapter.{Machine, FileInfo, safe_join}
use ao_covenant.Run.Adapter.Permitted.{Inside, safe_join-Inside}
use ao_covenant.Run.Prepare.{
  PrepareError, contract_schema_invalid, Options, Directories, of_path, of_host, of_contract,
  absolute_dir, validate_run_id, is_file, verify_declared_read, verify_declared_reads, Prepared,
  chosen_run_id, check_reads, check_run_id, check_out_dir, check_execution, open_run, prepare,
  hosted, snapshot_declared_reads,
}

module _ {World : Type 0} (host : Host) (machine : Machine World) (dirs : Directories World) where
  -- A file that a run may read: inside the workspace, there, and not a directory.
  abbrev pub Readable : World → String → String → Type 0
  Readable world root read_path =
      (target : String) × (safe_join host machine root read_path ≡ ok target)
      × Inside host machine root target
      × (info : FileInfo) × (machine.stat world target ≡ ok info)
      × (info.is_dir ≡ false)

  is_file-ok :
      (unavailable is_directory : PrepareError) (out : Outcome String FileInfo)
      → is_file host machine dirs unavailable is_directory out ≡ ok tt
      → (info : FileInfo) × (out ≡ ok info) × (info.is_dir ≡ false)
  is_file-ok unavailable is_directory (err e) h = cc
  is_file-ok unavailable is_directory (ok info) h = (info, refl, ground (arith, h))

  read-Readable :
      (world : World) (root read_path : String)
      → verify_declared_read host machine dirs world root read_path ≡ ok tt
      → Readable world root read_path
  unfolding verify_declared_read
  read-Readable world root read_path h =
      let (target, joined, there) = >>=-ok (of_path (safe_join host machine root read_path)) _ h in
      let inside = of_path-ok (safe_join host machine root read_path) joined in
      let (info, found, file) = is_file-ok _ _ (machine.stat world target) there in
      (
        target,
        inside,
        safe_join-Inside host machine root read_path target inside,
        info,
        found,
        file,
      )

  reads-Readable :
      (world : World) (root : String) (reads : List String)
      → verify_declared_reads host machine dirs world root reads ≡ ok tt
      → All (Readable world root) reads
  unfolding verify_declared_reads
  reads-Readable world root [] h = tt
  reads-Readable world root (r ∷ reads) h =
      let (first, rest) =
        >>-ok (verify_declared_read host machine dirs world root r)
          (verify_declared_reads host machine dirs world root reads) h in
      (read-Readable world root r first, reads-Readable world root reads rest)

  -- The root and the run's id are sound, the contract is well formed, and what it reads can be read.
  pub record Checked (world : World) (c : Contract) (options : Options)
      (root run_dir run_id digest : String) : Type 0 where
    pub well_formed : IsWellFormed c
    pub workspace_dir : String
    pub found_dir : dirs.absolute options.workspace_dir ≡ ok workspace_dir
    pub root_inside : Inside host machine workspace_dir root
    pub out_dir : String
    pub found_out_dir : dirs.absolute options.out_dir ≡ ok out_dir
    pub run_dir_below : run_dir ≡ machine.join out_dir run_id
    pub digested : dirs.contract_digest c ≡ ok digest
    pub valid_run_id : validate_run_id host run_id ≡ ok tt
    pub reads : All (Readable world root) c.workspace.reads

  absolute_dir-ok :
      (raw label dir : String)
      → absolute_dir dirs.absolute raw label ≡ ok dir
      → dirs.absolute raw ≡ ok dir
  unfolding absolute_dir
  absolute_dir-ok raw label dir h = elim (Bool-cases (trim_space raw == "")) [
    | inl e ↦ cc (rw e at h)
    | inr e ↦ of_host-ok (dirs.absolute raw) (rw e at h)
  ]

  module _ (contract_schema : Contract → Bool) (task_schema : Task → Bool) where
    -- The four texts that the checks hand on.
    abbrev Texts : Type 0
    Texts = String × String × String × String

    check_execution-Checked :
        (world : World) (c : Contract) (options : Options) (t : Texts)
        → check_execution host machine dirs contract_schema task_schema world c options ≡ ok t
        → Checked world c options t.0 t.1 t.2 t.3
    unfolding check_execution check_out_dir check_run_id check_reads
    check_execution-Checked world c options t h =
        let run_id = chosen_run_id host machine dirs world options.run_id in
        let schema = fail_if (not (contract_schema c)) contract_schema_invalid in
        let (checked, h1) =
          >>-ok (schema >> of_contract (validate host task_schema c))
            (absolute_dir dirs.absolute options.workspace_dir "workspace"
              >>= check_out_dir host machine dirs contract_schema task_schema world c options)
            h in
        let (_, valid) = >>-ok schema (of_contract (validate host task_schema c)) checked in
        let (workspace_dir, found, h2) =
          >>=-ok (absolute_dir dirs.absolute options.workspace_dir "workspace")
            (check_out_dir host machine dirs contract_schema task_schema world c options) h1 in
        let (out_dir, found_out, h3) =
          >>=-ok (absolute_dir dirs.absolute options.out_dir "out")
            (check_run_id host machine dirs contract_schema task_schema world c options
              workspace_dir)
            h2 in
        let joined = of_path (safe_join host machine workspace_dir c.workspace.root) in
        let then_reads =
          check_reads host machine dirs contract_schema task_schema world c options out_dir in
        let (run_id_valid, h4) = >>-ok (validate_run_id host run_id) (joined >>= then_reads) h3 in
        let (root, inside, h5) = >>=-ok joined then_reads h4 in
        let digested = of_host (dirs.contract_digest c) in
        let (readable, h6) =
          >>-ok (verify_declared_reads host machine dirs world root c.workspace.reads)
            (digested >>= (λ digest. ok (root, machine.join out_dir run_id, run_id, digest))) h5 in
        let (digest, has_digest, same) = >>=-ok digested _ h6 in
        let checked_at : Checked world c options root (machine.join out_dir run_id) run_id digest =
          record {
            well_formed =
                validate-IsWellFormed host task_schema c
                  (of_contract-ok (validate host task_schema c) valid);
            workspace_dir = workspace_dir;
            found_dir = absolute_dir-ok options.workspace_dir "workspace" workspace_dir found;
            root_inside =
                safe_join-Inside host machine workspace_dir c.workspace.root root
                  (of_path-ok _ inside);
            out_dir = out_dir;
            found_out_dir = absolute_dir-ok options.out_dir "out" out_dir found_out;
            run_dir_below = refl;
            digested = of_host-ok (dirs.contract_digest c) has_digest;
            valid_run_id = run_id_valid;
            reads = reads-Readable world root c.workspace.reads readable;
          } in
        subst (λ (x : Texts). Checked world c options x.0 x.1 x.2 x.3) (ok-injective same)
          checked_at

    -- What is prepared is what was checked, with a snapshot of each input.
    abbrev Opened : World → Contract → Texts → Prepared host machine dirs → Type 0
    Opened world c t p =
        (t ≡ (p.workspace_root, p.run_dir, p.run_id, p.contract_digest))
        × AllTaken host machine dirs t.0 t.1 (machine.make_dir world t.1).0 0 c.workspace.reads
            p.input_snapshots

    open_run-Opened :
        (world : World) (c : Contract) (t : Texts) (p : Prepared host machine dirs)
        → (open_run host machine dirs contract_schema task_schema world c t).1 ≡ ok p
        → Opened world c t p
    unfolding open_run
    open_run-Opened world c (root, run_dir, run_id, digest) p h =
        let made = machine.make_dir world run_dir in
        let (_, _, h1) = proceed-ok (hosted made) _ h in
        let shot =
          snapshot_declared_reads host machine dirs made.0 root run_dir 0 c.workspace.reads in
        let (snapshots, taken, h2) = proceed-ok shot _ h1 in
        let (_, _, h3) =
          proceed-ok (hosted (dirs.create_ledger shot.0 (machine.join run_dir "events.ndjson"))) _
            h2 in
        subst (Opened world c (root, run_dir, run_id, digest)) (ok-injective h3) (
          refl,
          snapshots-AllTaken host machine dirs root run_dir made.0 0 c.workspace.reads snapshots
              shot.0 (ap (λ (o : Outcome PrepareError (List InputSnapshot)). (shot.0, o)) taken),
        )

    -- A run that is begun has a well-formed contract with its digest, a root inside the workspace that
    -- was named, a valid id, and a directory of that name below the one for the output; each file that
    -- the contract reads is inside that root, there, and not a directory. Its snapshots are those of the
    -- files that the contract reads, in order: each was copied from that file of the workspace to the
    -- path that it names inside the run's directory, and has the digest of the copy.
    pub prepare-Checked :
        (world : World) (c : Contract) (options : Options) (p : Prepared host machine dirs)
        → (prepare host machine dirs contract_schema task_schema world c options).1 ≡ ok p
        → Checked world c options p.workspace_root p.run_dir p.run_id p.contract_digest
          × AllTaken host machine dirs p.workspace_root p.run_dir
              (machine.make_dir world p.run_dir).0
              0
              c.workspace.reads
              p.input_snapshots
    unfolding prepare
    prepare-Checked world c options p h =
        let checks =
          check_execution host machine dirs contract_schema task_schema world c options in
        let (t, checked, opened) = proceed-ok (world, checks) _ h in
        let (texts, taken) = open_run-Opened world c t p opened in
        subst
          (λ (x : Texts).
            Checked world c options x.0 x.1 x.2 x.3
            × AllTaken host machine dirs x.0 x.1 (machine.make_dir world x.1).0 0 c.workspace.reads
                p.input_snapshots)
          texts (check_execution-Checked world c options t checked, taken)

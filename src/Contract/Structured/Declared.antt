-- ===== src/Contract/Structured/Declared.antt =====
-- What a task of a compiled brief writes, the workspace of its contract declares.
use text.Mathlib.TextEquality.{eq_iff}
use ao_covenant.Base.{
  ℕ, suc, String, Bool, true, List, [], ◌∷◌, ◌≡◌, refl, ap, subst, arith, ◌⊎◌, inl, inr, ◌==◌,
  eq_of_==, All, All-map, All-append, Any, Any-map, Bool-cases, Outcome, ok, ◌>>=◌, >>-ok, >>=-ok,
}
use ao_covenant.Base.Dict.{Dict, insert, has, has-insert}
use ao_covenant.Text.{Host}
use ao_covenant.Paths.{slash_clean}
use ao_covenant.Policy.Types.{ActionRef}
use ao_covenant.Policy.Evaluator.Authority.{Declared}
use ao_covenant.Contract.Types.{Task, Contract}
use ao_covenant.Contract.Validate.{Error, validate, validate_relative_path}
use ao_covenant.Contract.Brief.{TaskDraft, StructuredBrief, AuthoringDiagnostic, unique_strings}
use ao_covenant.Contract.Compile.{file_write_actions}
use ao_covenant.Contract.Structured.{
  as_invalid, as_authored, normalize_authored_paths, file_read_actions, structured_task,
  structured_tasks, check_writes, write_set, check_drafts, check_obligation_ids, check_task_ids,
  validate_structured_authoring, structured_contract, validated, build_structured_contract,
  with_reads, with_writes, with_tasks, structured_workspace_writes,
}

-- The set holds the paths that it was made of.
write_set-Any :
    (host : Host) (set : Dict Bool) (paths : List String) (p : String)
    → has (write_set host set paths) p ≡ true
    → (has set p ≡ true) ⊎ Any (λ v. v ≡ p) paths
unfolding write_set
write_set-Any host set [] p h = inl h
write_set-Any host set (q ∷ paths) p h = elim (write_set-Any host (insert q true set) paths p h) [
  | inl before ↦ elim (Bool-cases (q == p)) [
    | inl same ↦ inr (inl (eq_of_== q p same))
    | inr differ ↦ inl (ground (arith, has-insert q p true set, before, differ))
  ]
  | inr later ↦ inr (inr later)
]

module _ (host : Host) (declared : Dict Bool) where
  abbrev InSet : TaskDraft → Type 0
  InSet task = All (λ w. has declared (slash_clean w) ≡ true) task.writes

  check_writes-InSet :
      (task : TaskDraft) (index : ℕ) (paths : List String)
      → check_writes host declared task index paths ≡ ok tt
      → All (λ w. has declared (slash_clean w) ≡ true) paths
  unfolding check_writes
  check_writes-InSet task index [] h = tt
  check_writes-InSet task index (w ∷ paths) h =
      let (h1, rest) = >>-ok _ (check_writes host declared task (suc index) paths) h in
      (ground (arith, h1), check_writes-InSet task (suc index) paths rest)

  check_drafts-InSet :
      (task_ids obligation_ids : Dict ℕ) (tasks : List TaskDraft)
      → check_drafts host task_ids obligation_ids declared tasks ≡ ok tt
      → All InSet tasks
  unfolding check_drafts
  check_drafts-InSet task_ids obligation_ids [] h = tt
  check_drafts-InSet task_ids obligation_ids (task ∷ tasks) h =
      let (h1, rest) = >>-ok _ (check_drafts host task_ids obligation_ids declared tasks) h in
      let (_, writes) = >>-ok _ (check_writes host declared task 0 task.writes) h1 in
      (
        check_writes-InSet task 0 task.writes writes,
        check_drafts-InSet task_ids obligation_ids tasks rest,
      )

normalize-All :
    (P : String → Type 0) (label : String) (raw paths : List String)
    → normalize_authored_paths label raw ≡ ok paths
    → All (λ w. P (slash_clean w)) raw
    → All P paths
unfolding normalize_authored_paths
normalize-All P label [] paths h all =
    let same : [] ≡ paths = ground (arith, h) in subst (All P) same tt
normalize-All P label (w ∷ raw) paths h (first, later) =
    let (_, h1) = >>-ok (validate_relative_path label (slash_clean w)) _ h in
    let (rest, found, done) = >>=-ok (normalize_authored_paths label raw) _ h1 in
    let same : slash_clean w ∷ rest ≡ paths = ground (arith, done) in
    subst (All P) same (first, normalize-All P label raw rest found later)

-- A write among the effects has its resource among the declared paths.
abbrev pub WritesDeclared : List String → ActionRef → Type 0
WritesDeclared writes a = a.type ≡ "file.write" → Declared writes a.resource

writes-Declared :
    (writes paths : List String)
    → All (Declared writes) paths
    → All (WritesDeclared writes) (file_write_actions paths)
unfolding file_write_actions
writes-Declared writes [] h = tt
writes-Declared writes (p ∷ paths) (first, later) = (λ _. first, writes-Declared writes paths later)

reads-Declared :
    (writes paths : List String) → All (WritesDeclared writes) (file_read_actions paths)
unfolding file_read_actions
reads-Declared writes [] = tt
reads-Declared writes (p ∷ paths) = (
  λ (e : "file.read" ≡ "file.write"). ground (arith, e, eq_iff "file.read" "file.write"),
  reads-Declared writes paths,
)

-- The effects of a task that stay in the declared paths.
abbrev pub Contained : List String → Task → Type 0
Contained writes t = All (WritesDeclared writes) t.declared_side_effects

task-Contained :
    (declared : List String) (draft : TaskDraft) (writes reads : List String)
    → All (Declared declared) writes
    → Contained declared (structured_task draft writes reads)
unfolding structured_task
task-Contained declared draft writes reads h =
    All-append (WritesDeclared declared) (file_write_actions writes) (file_read_actions reads)
      (writes-Declared declared writes h) (reads-Declared declared reads)

tasks-Contained :
    (declared : List String) (drafts : List TaskDraft) (tasks : List Task)
    → All (λ d. All (λ w. Declared declared (slash_clean w)) d.writes) drafts
    → structured_tasks drafts ≡ ok tasks
    → All (Contained declared) tasks
unfolding structured_tasks
tasks-Contained declared [] tasks h e =
    let same : [] ≡ tasks = ground (arith, e) in subst (All (Contained declared)) same tt
tasks-Contained declared (d ∷ drafts) tasks (first, later) e =
    let (writes, w, e1) = >>=-ok (normalize_authored_paths "side effect resource" d.writes) _ e in
    let (reads, r, e2) = >>=-ok (normalize_authored_paths "side effect resource" d.reads) _ e1 in
    let (rest, t, done) = >>=-ok (structured_tasks drafts) _ e2 in
    let same : structured_task d writes reads ∷ rest ≡ tasks = ground (arith, done) in
    subst (All (Contained declared)) same (
      task-Contained declared d writes reads
          (normalize-All (Declared declared) "side effect resource" d.writes writes w first),
      tasks-Contained declared drafts rest later t,
    )

pub as_invalid-ok :
    {A : Type 0} (o : Outcome Error A) {value : A} → as_invalid o ≡ ok value → o ≡ ok value
unfolding as_invalid
as_invalid-ok o h = ground (arith, h)

pub as_authored-ok :
    {A : Type 0} (o : Outcome AuthoringDiagnostic A) {value : A}
    → as_authored o ≡ ok value
    → o ≡ ok value
unfolding as_authored
as_authored-ok o h = ground (arith, h)

-- The checks of the authoring establish that each draft writes declared paths.
authoring-Declared :
    (host : Host) (parsed : StructuredBrief) (writes : List String)
    → validate_structured_authoring host parsed writes ≡ ok tt
    → All (λ d. All (λ w. Declared writes (slash_clean w)) d.writes) parsed.tasks
unfolding validate_structured_authoring
authoring-Declared host parsed writes h =
    let (obligation_ids, _, h1) =
      >>=-ok (check_obligation_ids host [] parsed.obligation_lines 0 parsed.obligations) _ h in
    let (task_ids, _, h2) = >>=-ok (check_task_ids host [] parsed.tasks) _ h1 in
    let set : Dict Bool = write_set host [] writes in
    All-map (InSet host set) (λ d. All (λ w. Declared writes (slash_clean w)) d.writes) parsed.tasks
      (λ d.
        All-map (λ w. has set (slash_clean w) ≡ true) (λ w. Declared writes (slash_clean w))
          d.writes (λ w e. set-Declared (slash_clean w) e))
      (check_drafts-InSet host set task_ids obligation_ids parsed.tasks h2)
  where
    set-Declared : (p : String) → has (write_set host [] writes) p ≡ true → Declared writes p
    set-Declared p e = elim (write_set-Any host [] writes p e) [
      | inl none_before ↦ absurd (unfold has in cc)
      | inr found ↦
          Any-map (λ v. v ≡ p) (λ v. slash_clean v ≡ slash_clean p) writes
            (λ v same. ap slash_clean same) found
    ]

-- A strict contract whose tasks write declared paths.
pub record Built (c : Contract) : Type 0 where
  pub strict : c.policy.mode ≡ "strict"
  pub contained : All (Contained c.workspace.writes) c.tasks

structured-Built :
    (brief : String) (parsed : StructuredBrief) (reads writes : List String) (tasks : List Task)
    → All (Contained writes) tasks
    → Built (structured_contract brief parsed reads writes tasks)
unfolding structured_contract
structured-Built brief parsed reads writes tasks h = record { strict = refl; contained = h }

module _ (host : Host) (task_schema : Task → Bool) where
  validated-ok :
      (built c : Contract)
      → validated host task_schema built ≡ ok c
      → (validate host task_schema built ≡ ok tt) × (built ≡ c)
  unfolding validated as_invalid
  validated-ok built c h = (ground (arith, h), ground (arith, h))

  -- What a contract of a structured brief was built of.
  pub build-Contained :
      (brief source : String) (overrides : List String) (parsed : StructuredBrief) (c : Contract)
      → build_structured_contract host task_schema brief source overrides parsed ≡ ok c
      → (validate host task_schema c ≡ ok tt) × Built c
  unfolding build_structured_contract with_reads with_writes with_tasks
  build-Contained brief source overrides parsed c h =
      let (reads, _, h1) =
        >>=-ok (as_invalid (normalize_authored_paths "workspace read" parsed.reads))
          (with_reads host task_schema brief source overrides parsed) h in
      let read : List String = unique_strings (source ∷ reads) in
      let (writes, _, h2) =
        >>=-ok (as_invalid (structured_workspace_writes overrides parsed))
          (with_writes host task_schema brief parsed read) h1 in
      let (authored, h3) =
        >>-ok (as_authored (validate_structured_authoring host parsed writes))
          (as_invalid (structured_tasks parsed.tasks)
            >>= with_tasks host task_schema brief parsed read writes)
          h2 in
      let (tasks, found, h4) =
        >>=-ok (as_invalid (structured_tasks parsed.tasks))
          (with_tasks host task_schema brief parsed read writes) h3 in
      let built : Contract = structured_contract brief parsed read writes tasks in
      let (valid, same) = validated-ok built c h4 in
      subst (λ (x : Contract). (validate host task_schema x ≡ ok tt) × Built x) same
        (
          valid,
          structured-Built brief parsed read writes tasks (
              tasks-Contained writes parsed.tasks tasks
                (authoring-Declared host parsed writes
                  (as_authored-ok (validate_structured_authoring host parsed writes) authored))
                (as_invalid-ok (structured_tasks parsed.tasks) found)),
        )

-- ===== src/Contract/Brief/Parse/Content.antt =====
-- A line below a heading is kept with what is read from it.
use ao_covenant.Base.{
  ℕ, String, Bool, true, ◌||◌, Option, none, some, List, [], ◌∷◌, ◌≡◌, Any, All-map, inl, inr,
  eq_of_==, Bool-cases, refl, sym, ◌==◌, All, subst, if◌then◌else◌,
}
use ao_covenant.Integers.{ℤ}
use ao_covenant.Text.{Host, trim_space, to_lower}
use ao_covenant.Contract.Types.{Obligation}
use ao_covenant.Contract.Brief.{
  TaskDraft, split_inline_list, parse_bullet, parse_key_value, parse_bool, atoi,
}
use ao_covenant.Contract.Brief.Fields.{
  required_or, obligation_field, parse_obligation_line, append_task_list_value, append_all,
  timeout_or, task_field, task_bullet, task_line, parse_task_line,
}
use ao_covenant.Contract.Brief.Parse.{
  ParserState, read_bullet, write_bullet, in_obligation, in_task, parse_content,
}
use ao_covenant.Contract.Brief.Parse.Written.{
  Zipped-append, At, WrittenOn, Heading, IsWritten, Current, CurrentObligation, StateWritten, Keeps,
  >>=-Keeps, if-Keeps,
}

members : (values : List String) → All (λ v. Any (λ u. u ≡ v) values) values
members [] = tt
members (v ∷ values) = (
  inl refl,
  All-map (λ u. Any (λ w. w ≡ u) values) (λ u. Any (λ w. w ≡ u) (v ∷ values)) values (λ u h. inr h)
      (members values),
)

-- One line of the brief is read.
module _ (host : Host) (file : List String) (n : ℕ) (raw : String) (here : At host file n raw) where
  abbrev Draft : TaskDraft → Type 0
  Draft = IsWritten host file

  abbrev Now : String → String → Type 0
  Now field value = WrittenOn host file field n value

  -- A draft and the list field that is open.
  abbrev First : TaskDraft × String → Type 0
  First next = Draft next.0

  append-Keeps :
      (t : TaskDraft) (field value : String)
      → Draft t
      → Now field value
      → Keeps Draft (append_task_list_value host t field value n)
  unfolding append_task_list_value
  append-Keeps t field value (heading, depends_on, obligations, writes, reads) now =
      let of_field = λ (name : String) (e : (field == name) ≡ true).
        subst (λ (f : String). WrittenOn host file f n value) (eq_of_== field name e) now in
      if-Keeps Draft (field == "depends_on") _ _
        (λ e.
          let grown =
            Zipped-append (WrittenOn host file "depends_on") t.depends_on_lines t.depends_on n value
              depends_on (of_field "depends_on" e) in
          (heading, grown, obligations, writes, reads))
        (if-Keeps Draft (field == "obligations") _ _
          (λ e.
            let grown =
              Zipped-append (WrittenOn host file "obligations") t.obligation_lines t.obligations n
                value obligations (of_field "obligations" e) in
            (heading, depends_on, grown, writes, reads))
          (if-Keeps Draft (field == "writes") _ _
            (λ e.
              let grown =
                Zipped-append (WrittenOn host file "writes") t.write_lines t.writes n value writes
                  (of_field "writes" e) in
              (heading, depends_on, obligations, grown, reads))
            (if-Keeps Draft (field == "reads") _ _
              (λ e.
                let grown =
                  Zipped-append (WrittenOn host file "reads") t.read_lines t.reads n value reads
                    (of_field "reads" e) in
                (heading, depends_on, obligations, writes, grown))
              tt)))

  append_all-Keeps :
      (t : TaskDraft) (field : String) (values : List String)
      → Draft t
      → All (Now field) values
      → Keeps Draft (append_all host t field values n)
  unfolding append_all
  append_all-Keeps t field [] w now = w
  append_all-Keeps t field (v ∷ values) w (first, now) =
      >>=-Keeps Draft Draft (append_task_list_value host t field v n) _
        (append-Keeps t field v w first) (λ next w'. append_all-Keeps next field values w' now)

  timeout-Keeps :
      (t : TaskDraft) (timeout : Option ℤ) → Draft t → Keeps First (timeout_or t n timeout)
  timeout-Keeps t none w = tt
  timeout-Keeps t (some timeout_secs) w = w

  -- The items of an inline list, if it has any.
  items : String → List String
  items list = if list == "" then [] else split_inline_list list

  items-Now :
      (key list : String)
      → parse_key_value host (trim_space raw) ≡ some (key, list)
      → All (Now key) (items list)
  unfolding items
  items-Now key list entry = elim (Bool-cases (list == "")) [
    | inl e ↦ rw e tt
    | inr e ↦ rw e (
        All-map (λ v. Any (λ u. u ≡ v) (split_inline_list list)) (Now key) (split_inline_list list)
          (λ v member. (raw, here, inr (list, entry, member))) (members (split_inline_list list)))
  ]

  field-Keeps :
      (t : TaskDraft) (entry : Option (String × String))
      → parse_key_value host (trim_space raw) ≡ entry
      → Draft t
      → Keeps First (task_field host t n entry)
  unfolding task_field items
  field-Keeps t none e w = tt
  field-Keeps t (some (key, list)) e w =
      if-Keeps First (key == "kind") _ _ (λ _. w)
        (if-Keeps First (key == "adapter") _ _ (λ _. w)
          (if-Keeps First (key == "timeout_seconds") _ _ (λ _. timeout-Keeps t (atoi list) w)
            (if-Keeps First
              (key == "depends_on" || key == "obligations" || key == "writes" || key == "reads") _ _
              (λ _.
                >>=-Keeps Draft First (append_all host t key (items list) n) _
                  (append_all-Keeps t key (items list) w (items-Now key list e)) (λ next w'. w'))
              tt)))

  bullet-Keeps :
      (t : TaskDraft) (field value : String)
      → parse_bullet (trim_space raw) ≡ some value
      → Draft t
      → Keeps First (task_bullet host t field value n)
  unfolding task_bullet
  bullet-Keeps t field value bullet w =
      if-Keeps First (field == "") _ _ (λ _. tt)
        (>>=-Keeps Draft First (append_task_list_value host t field value n) _
          (append-Keeps t field value w (raw, here, inl bullet)) (λ next w'. w'))

  of_bullet :
      (t : TaskDraft) (field : String) (bullet : Option String)
      → parse_bullet (trim_space raw) ≡ bullet
      → Draft t
      → Keeps First (task_line host t field (trim_space raw) n bullet)
  unfolding task_line
  of_bullet t field none e w = field-Keeps t (parse_key_value host (trim_space raw)) refl w
  of_bullet t field (some value) e w = bullet-Keeps t field value e w

  task_line-Keeps :
      (t : TaskDraft) (field : String)
      → Draft t
      → Keeps First (parse_task_line host t field (trim_space raw) n)
  unfolding parse_task_line
  task_line-Keeps t field w = of_bullet t field (parse_bullet (trim_space raw)) refl w

  abbrev State : ParserState → Type 0
  State = StateWritten host file

  in_task-Keeps :
      (s : ParserState) (t : Option TaskDraft)
      → State s
      → Current host file t
      → Keeps State (in_task host s t (trim_space raw) n)
  unfolding in_task
  in_task-Keeps s none a c = tt
  in_task-Keeps s (some t) (done, _, obligations, opened) c =
      >>=-Keeps First State (parse_task_line host t s.list_field (trim_space raw) n) _
        (task_line-Keeps t s.list_field c) (λ next w. (done, w, obligations, opened))

  -- The id of an obligation stays as its heading has it.
  required-SameId :
      (o : Obligation) (required : Option Bool)
      → Keeps (λ (next : Obligation). next.id ≡ o.id) (required_or o n required)
  required-SameId o none = tt
  required-SameId o (some required) = refl

  field-SameId :
      (o : Obligation) (entry : Option (String × String))
      → Keeps (λ (next : Obligation). next.id ≡ o.id) (obligation_field host o n entry)
  unfolding obligation_field
  field-SameId o none = tt
  field-SameId o (some (key, value)) =
      let Same = λ (next : Obligation). next.id ≡ o.id in
      if-Keeps Same (key == "required") _ _
        (λ _. required-SameId o (parse_bool (to_lower host value)))
        (if-Keeps Same (key == "text") _ _ (λ _. refl) tt)

  obligation_line-SameId :
      (o : Obligation) (line : String)
      → Keeps (λ (next : Obligation). next.id ≡ o.id) (parse_obligation_line host o line n)
  unfolding parse_obligation_line
  obligation_line-SameId o line = field-SameId o (parse_key_value host line)

  in_obligation-Keeps :
      (s : ParserState) (o : Option Obligation) (line : String)
      → State s
      → CurrentObligation host file s.current_obligation_line o
      → Keeps State (in_obligation host s o line n)
  unfolding in_obligation
  in_obligation-Keeps s none line a c = tt
  in_obligation-Keeps s (some o) line (done, current, obligations, _) c =
      >>=-Keeps (λ (next : Obligation). next.id ≡ o.id) State (parse_obligation_line host o line n)
        _ (obligation_line-SameId o line)
        (λ next same. (
          done,
          current,
          obligations,
          subst (λ (id : String). Heading host file "obligation:" 11 s.current_obligation_line id)
              (sym same) c,
        ))

  bullets-Keep :
      (s : ParserState) (bullet : Option String)
      → State s
      → Keeps State (read_bullet s bullet n) × Keeps State (write_bullet s bullet n)
  unfolding read_bullet write_bullet
  bullets-Keep s none a = (tt, tt)
  bullets-Keep s (some value) a = (a, a)

  pub content-Keeps :
      (s : ParserState) → State s → Keeps State (parse_content host s (trim_space raw) n)
  unfolding parse_content
  content-Keeps s a =
      let bullets = bullets-Keep s (parse_bullet (trim_space raw)) a in
      if-Keeps State (s.section == "objective") _ _ (λ _. a)
        (if-Keeps State (s.section == "reads") _ _ (λ _. bullets.0)
          (if-Keeps State (s.section == "writes") _ _ (λ _. bullets.1)
            (if-Keeps State (s.section == "obligations") _ _
              (λ _. in_obligation-Keeps s s.current_obligation (trim_space raw) a a.3)
              (if-Keeps State (s.section == "tasks") _ _ (λ _. in_task-Keeps s s.current_task a a.1)
                a))))

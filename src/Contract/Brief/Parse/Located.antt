-- ===== src/Contract/Brief/Parse/Located.antt =====
-- Where a diagnostic of the parser points.
use ao_covenant.Base.{
  ℕ, suc, ◌+◌, ◌≤◌, ◌<◌, String, Bool, true, false, Option, none, some, List, [], ◌∷◌, ◌≡◌, refl,
  arith, length, Outcome, ok, err, ◌>>=◌, >>=-err, subst, inl, inr, if◌then◌else◌,
}
use ao_covenant.Text.{Host, trim_space}
use ao_covenant.Contract.Types.{Obligation}
use ao_covenant.Contract.Brief.{
  TaskDraft, AuthoringDiagnostic, split_inline_list, drop_runes, parse_bullet, parse_key_value,
}
use ao_covenant.Contract.Brief.Fields.{
  obligation_field, parse_obligation_line, append_task_list_value, append_all, task_field,
  task_bullet, task_line, parse_task_line,
}
use ao_covenant.Contract.Brief.Parse.{
  ParserState, initial, open_task, open_obligation, parse_heading, read_bullet, write_bullet,
  in_obligation, in_task, parse_content, parse_line, parse_lines, lines_of, parse_structured_brief,
}

-- What is refused is refused at the line.
abbrev Located : {A : Type 0} → ℕ → Outcome AuthoringDiagnostic A → Type 0
Located n (ok value) = Unit
Located n (err d) = d.line ≡ n

>>=-Located :
    {A B : Type 0} (n : ℕ) (step : Outcome AuthoringDiagnostic A)
    (rest : A → Outcome AuthoringDiagnostic B)
    → Located n step
    → ((x : A) → Located n (rest x))
    → Located n (step >>= rest)
>>=-Located n (ok x) rest first later = later x
>>=-Located n (err d) rest first later = first

if-Located :
    {A : Type 0} (n : ℕ) (test : Bool) (yes_case no_case : Outcome AuthoringDiagnostic A)
    → Located n yes_case
    → Located n no_case
    → Located n (if test then yes_case else no_case)
if-Located n true a b first second = first
if-Located n false a b first second = second

module _ (host : Host) (n : ℕ) where
  obligation-Located :
      (o : Obligation) (line : String) → Located n (parse_obligation_line host o line n)
  unfolding parse_obligation_line obligation_field
  obligation-Located o line = ground arith

  append-Located :
      (t : TaskDraft) (field value : String)
      → Located n (append_task_list_value host t field value n)
  unfolding append_task_list_value
  append-Located t field value = ground arith

  append_all-Located :
      (t : TaskDraft) (field : String) (values : List String)
      → Located n (append_all host t field values n)
  unfolding append_all
  append_all-Located t field [] = tt
  append_all-Located t field (v ∷ values) =
      >>=-Located n (append_task_list_value host t field v n) _ (append-Located t field v)
        (λ next. append_all-Located next field values)

  field-Located :
      (t : TaskDraft) (entry : Option (String × String)) → Located n (task_field host t n entry)
  unfolding task_field
  field-Located t none = refl
  field-Located t (some (key, value)) =
      ground
        (arith, append_all-Located t key [], append_all-Located t key (split_inline_list value))

  bullet-Located :
      (t : TaskDraft) (field value : String) → Located n (task_bullet host t field value n)
  unfolding task_bullet
  bullet-Located t field value = ground (arith, append-Located t field value)

  task_line-Located :
      (t : TaskDraft) (field line : String) → Located n (parse_task_line host t field line n)
  unfolding parse_task_line task_line
  task_line-Located t field line = of_bullet (parse_bullet line)
    where
      of_bullet : (bullet : Option String) → Located n (task_line host t field line n bullet)
      of_bullet none = field-Located t (parse_key_value host line)
      of_bullet (some value) = bullet-Located t field value

  in_obligation-Located :
      (s : ParserState) (o : Option Obligation) (line : String)
      → Located n (in_obligation host s o line n)
  unfolding in_obligation
  in_obligation-Located s none line = refl
  in_obligation-Located s (some o) line = ground (arith, obligation-Located o line)

  in_task-Located :
      (s : ParserState) (t : Option TaskDraft) (line : String) → Located n (in_task host s t line n)
  unfolding in_task
  in_task-Located s none line = refl
  in_task-Located s (some t) line = ground (arith, task_line-Located t s.list_field line)

  content-Located : (s : ParserState) (line : String) → Located n (parse_content host s line n)
  unfolding parse_content read_bullet write_bullet
  content-Located s line = ground (
    arith,
    in_obligation-Located s s.current_obligation line,
    in_task-Located s s.current_task line,
  )

  heading-Located :
      (s : ParserState) (heading : String) → Located n (parse_heading host s heading n)
  unfolding parse_heading open_task open_obligation
  heading-Located s heading = ground arith

  line-Located : (s : ParserState) (line : String) → Located n (parse_line host s line n)
  unfolding parse_line
  line-Located s line = ground (
    arith,
    content-Located s (trim_space line),
    heading-Located s (trim_space (drop_runes 3 (trim_space line))),
  )

lines-Located :
    (host : Host) (s : ParserState) (lines : List String) (n : ℕ) (d : AuthoringDiagnostic)
    → parse_lines host s lines n ≡ err d
    → (n ≤ d.line) × (d.line < n + length lines)
unfolding parse_lines
lines-Located host s [] n d h = cc
lines-Located host s (line ∷ lines) n d h =
    elim (>>=-err (parse_line host s line n) (λ next. parse_lines host next lines (suc n)) h) [
      | inl e ↦ ground (arith, subst (Located n) e (line-Located host n s line))
      | inr (next, _, later) ↦ ground (arith, lines-Located host next lines (suc n) d later)
    ]

-- What the parser refuses, it refuses at a line of the brief: the diagnostic's line is one of those
-- that the brief has, counted from 1.
pub parse-on_line :
    (host : Host) (brief : String) (d : AuthoringDiagnostic)
    → parse_structured_brief host brief ≡ err d
    → (1 ≤ d.line) × (d.line ≤ length (lines_of brief))
unfolding parse_structured_brief
parse-on_line host brief d h = elim (>>=-err (parse_lines host initial (lines_of brief) 1) _ h) [
  | inl e ↦ ground (arith, lines-Located host initial (lines_of brief) 1 d e)
  | inr (s, _, later) ↦ cc
]

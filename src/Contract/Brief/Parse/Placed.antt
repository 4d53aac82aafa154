-- ===== src/Contract/Brief/Parse/Placed.antt =====
-- What a brief that parses says stands on the lines that the parser keeps.
use ao_covenant.Base.{
  ℕ, suc, ◌+◌, String, Bool, true, ◌&&◌, >>=-ok, Option, none, some, List, [], ◌∷◌, ◌++◌, ◌≡◌, refl,
  sym, ap, ◌∙◌, arith, length, length-append, ok, ◌==◌, All, All-append, subst,
}
use ao_covenant.Text.{Host, trim_space, to_lower, has_prefix}
use ao_covenant.Contract.Types.{Obligation}
use ao_covenant.Contract.Brief.{TaskDraft, StructuredBrief, drop_runes}
use ao_covenant.Contract.Brief.Parse.{
  ParserState, initial, finished_task, finished_obligation, finish_task, finish_obligation,
  open_section, open_task, open_obligation, parse_heading, parse_line, parse_lines, lines_of,
  parsed_brief, parse_structured_brief,
}
use ao_covenant.Contract.Brief.Parse.Written.{
  Zipped, Zipped-append, At, IsWritten, ObligationHeading, Current, CurrentObligation, StateWritten,
  Keeps, >>=-Keeps, if-Keeps,
}
use ao_covenant.Contract.Brief.Parse.Content.{content-Keeps}

module _ (host : Host) (file : List String) where
  finished_task-Written :
      (s : ParserState) (t : Option TaskDraft)
      → StateWritten host file s
      → Current host file t
      → StateWritten host file (finished_task s t)
  finished_task-Written s none a c = a
  finished_task-Written s (some t) (done, _, obligations, opened) c =
      (All-append (IsWritten host file) s.tasks (t ∷ []) done (c, tt), tt, obligations, opened)

  finished_obligation-Written :
      (s : ParserState) (o : Option Obligation)
      → StateWritten host file s
      → CurrentObligation host file s.current_obligation_line o
      → StateWritten host file (finished_obligation s o)
  finished_obligation-Written s none a c = a
  finished_obligation-Written s (some o) (done, current, obligations, _) c = (
    done,
    current,
    Zipped-append (ObligationHeading host file) s.obligation_lines s.obligations
        s.current_obligation_line o obligations c,
    tt,
  )

  finish_task-Written :
      (s : ParserState) → StateWritten host file s → StateWritten host file (finish_task s)
  unfolding finish_task
  finish_task-Written s a = finished_task-Written s s.current_task a a.1

  finish_obligation-Written :
      (s : ParserState) → StateWritten host file s → StateWritten host file (finish_obligation s)
  unfolding finish_obligation
  finish_obligation-Written s a = finished_obligation-Written s s.current_obligation a a.3

module _ (host : Host) (file : List String) (n : ℕ) (raw : String) (here : At host file n raw) where
  heading-Keeps :
      (s : ParserState)
      → (has_prefix (trim_space raw) "## " ≡ true)
      → StateWritten host file s
      → Keeps
          (StateWritten host file)
          (parse_heading host s (trim_space (drop_runes 3 (trim_space raw))) n)
  unfolding parse_heading open_task open_obligation
  heading-Keeps s second_level a =
      let State = StateWritten host file in
      let heading : String = trim_space (drop_runes 3 (trim_space raw)) in
      let (tasks, _, lines, opened) = finish_task-Written host file s a in
      let (done, current, closed, _) = finish_obligation-Written host file s a in
      if-Keeps State (s.section == "tasks" && has_prefix (to_lower host heading) "task:") _ _
        (λ e.
          if-Keeps State (trim_space (drop_runes 5 heading) == "") _ _ (λ _. tt)
            (
              tasks,
              ((raw, here, second_level, ground (arith, e), refl), tt, tt, tt, tt),
              lines,
              opened,
            ))
        (if-Keeps State
          (s.section == "obligations" && has_prefix (to_lower host heading) "obligation:") _ _
          (λ e.
            if-Keeps State (trim_space (drop_runes 11 heading) == "") _ _ (λ _. tt)
              (done, current, closed, (raw, here, second_level, ground (arith, e), refl)))
          tt)

  line-Keeps :
      (s : ParserState)
      → StateWritten host file s
      → Keeps (StateWritten host file) (parse_line host s raw n)
  unfolding parse_line open_section
  line-Keeps s a =
      let State = StateWritten host file in
      let line : String = trim_space raw in
      if-Keeps State (line == "") _ _ (λ _. a)
        (if-Keeps State (has_prefix line "# ") _ _
          (λ _.
            finish_obligation-Written host file (finish_task s) (finish_task-Written host file s a))
          (if-Keeps State (has_prefix line "## ") _ _ (λ e. heading-Keeps s e a)
            (content-Keeps host file n raw here s a)))

next_read :
    (read : List String) (n : ℕ) (line : String)
    → length read + 1 ≡ n
    → length (read ++ line ∷ []) + 1 ≡ suc n
next_read read n line count = omega (arith, count, length-append read (line ∷ []))

append_assoc : (xs ys zs : List String) → (xs ++ ys) ++ zs ≡ xs ++ (ys ++ zs)
append_assoc [] ys zs = refl
append_assoc (x ∷ xs) ys zs = ap (λ (l : List String). x ∷ l) (append_assoc xs ys zs)

lines-Keep :
    (host : Host) (file read : List String) (s : ParserState) (lines : List String) (n : ℕ)
    → file ≡ (read ++ lines)
    → length read + 1 ≡ n
    → StateWritten host file s
    → Keeps (StateWritten host file) (parse_lines host s lines n)
unfolding parse_lines
lines-Keep host file read s [] n shape count a = a
lines-Keep host file read s (line ∷ lines) n shape count a =
    >>=-Keeps (StateWritten host file) (StateWritten host file) (parse_line host s line n) _
      (line-Keeps host file n line (read, lines, shape, count) s a)
      (λ next b.
        lines-Keep host file (read ++ line ∷ []) next lines (suc n)
          (shape ∙ sym (append_assoc read (line ∷ []) lines)) (next_read read n line count) b)

-- In a brief that parses, every dependency, obligation, write and read of a task stands on the line that
-- is kept for it, as the bullet of that line or as an item of the list that it gives for the field; and
-- the heading of every task and of every obligation, with its id, stands on the line that is kept for
-- it. Lines are those of the brief, counted from 1.
pub parse-IsWritten :
    (host : Host) (brief : String) (parsed : StructuredBrief) (structured : Bool)
    → parse_structured_brief host brief ≡ ok (parsed, structured)
    → All (IsWritten host (lines_of brief)) parsed.tasks
      × Zipped (ObligationHeading host (lines_of brief)) parsed.obligation_lines parsed.obligations
unfolding parse_structured_brief parsed_brief
parse-IsWritten host brief parsed structured h =
    let file = lines_of brief in
    let (s, e, done) = >>=-ok (parse_lines host initial file 1) _ h in
    let written =
      subst (Keeps (StateWritten host file)) e
        (lines-Keep host file [] initial file 1 refl refl (tt, tt, tt, tt)) in
    let (tasks, _, lines, _) =
      finish_obligation-Written host file (finish_task s)
        (finish_task-Written host file s written) in
    let same : parsed_brief s ≡ parsed = ground (arith, done) in
    subst
      (λ (b : StructuredBrief).
        All (IsWritten host file) b.tasks
        × Zipped (ObligationHeading host file) b.obligation_lines b.obligations)
      same (tasks, lines)

-- ===== src/Contract/Brief/Parse/Written.antt =====
-- What the lines mean that the parser keeps beside what it reads from them.
use ao_covenant.Base.{
  ℕ, ◌+◌, String, Bool, true, false, Option, none, some, List, [], ◌∷◌, ◌++◌, ◌≡◌, ◌⊎◌, Any, refl,
  length, Outcome, ok, err, ◌>>=◌, All, if◌then◌else◌,
}
use ao_covenant.Text.{Host, trim_space, to_lower, has_prefix}
use ao_covenant.Contract.Types.{Obligation}
use ao_covenant.Contract.Brief.{
  TaskDraft, AuthoringDiagnostic, split_inline_list, drop_runes, parse_bullet, parse_key_value,
}
use ao_covenant.Contract.Brief.Parse.{ParserState}

-- A predicate on the members of two lists of one length, pair by pair.
abbrev pub Zipped : {A : Type 0} → (ℕ → A → Type 0) → List ℕ → List A → Type 0
Zipped P [] [] = Unit
Zipped P (n ∷ lines) (x ∷ values) = P n x × Zipped P lines values
Zipped P _ _ = ⊥

pub Zipped-append :
    {A : Type 0} (P : ℕ → A → Type 0) (lines : List ℕ) (values : List A) (n : ℕ) (x : A)
    → Zipped P lines values
    → P n x
    → Zipped P (lines ++ n ∷ []) (values ++ x ∷ [])
Zipped-append P [] [] n x h p = (p, tt)
Zipped-append P (m ∷ lines) (y ∷ values) n x (first, h) p =
    (first, Zipped-append P lines values n x h p)
Zipped-append P [] (y ∷ values) n x h p = absurd h
Zipped-append P (m ∷ lines) [] n x h p = absurd h

module _ (host : Host) (file : List String) where
  -- The line of the brief with this number, counted from 1.
  abbrev pub At : ℕ → String → Type 0
  At n text =
      (before : List String) × (after : List String) × (file ≡ (before ++ text ∷ after))
      × (length before + 1 ≡ n)

  -- A value on a line: it is the line's bullet, or an item of the list behind the field's name.
  abbrev pub Stands : String → String → String → Type 0
  Stands field text value =
      (parse_bullet (trim_space text) ≡ some value)
      ⊎ ((list : String) × (parse_key_value host (trim_space text) ≡ some (field, list))
          × Any (λ v. v ≡ value) (split_inline_list list))

  abbrev pub WrittenOn : String → ℕ → String → Type 0
  WrittenOn field n value = (text : String) × At n text × Stands field text value

  -- The line opens a task or an obligation with this id: a heading of the second level that begins with
  -- the keyword, which has so many runes.
  abbrev pub Heading : String → ℕ → ℕ → String → Type 0
  Heading keyword width n id =
      (text : String) × At n text
      × (has_prefix (trim_space text) "## " ≡ true)
      × (has_prefix (to_lower host (trim_space (drop_runes 3 (trim_space text)))) keyword ≡ true)
      × (trim_space (drop_runes width (trim_space (drop_runes 3 (trim_space text)))) ≡ id)

  -- The draft's heading stands on its line, and each value of its lists on the line that is kept for it.
  abbrev pub IsWritten : TaskDraft → Type 0
  IsWritten t =
      Heading "task:" 5 t.line t.id
      × Zipped (WrittenOn "depends_on") t.depends_on_lines t.depends_on
      × Zipped (WrittenOn "obligations") t.obligation_lines t.obligations
      × Zipped (WrittenOn "writes") t.write_lines t.writes
      × Zipped (WrittenOn "reads") t.read_lines t.reads

  abbrev pub ObligationHeading : ℕ → Obligation → Type 0
  ObligationHeading n o = Heading "obligation:" 11 n o.id

  abbrev pub Current : Option TaskDraft → Type 0
  Current none = Unit
  Current (some t) = IsWritten t

  abbrev pub CurrentObligation : ℕ → Option Obligation → Type 0
  CurrentObligation n none = Unit
  CurrentObligation n (some o) = ObligationHeading n o

  abbrev pub StateWritten : ParserState → Type 0
  StateWritten s =
      All IsWritten s.tasks
      × Current s.current_task
      × Zipped ObligationHeading s.obligation_lines s.obligations
      × CurrentObligation s.current_obligation_line s.current_obligation

-- A result that satisfies the predicate, unless it is an error.
abbrev pub Keeps : {A : Type 0} → (A → Type 0) → Outcome AuthoringDiagnostic A → Type 0
Keeps P (ok x) = P x
Keeps P (err d) = Unit

pub >>=-Keeps :
    {A B : Type 0} (P : A → Type 0) (Q : B → Type 0) (step : Outcome AuthoringDiagnostic A)
    (rest : A → Outcome AuthoringDiagnostic B)
    → Keeps P step
    → ((x : A) → P x → Keeps Q (rest x))
    → Keeps Q (step >>= rest)
>>=-Keeps P Q (ok x) rest first later = later x first
>>=-Keeps P Q (err d) rest first later = tt

pub if-Keeps :
    {A : Type 0} (P : A → Type 0) (test : Bool) (left right : Outcome AuthoringDiagnostic A)
    → (test ≡ true → Keeps P left)
    → Keeps P right
    → Keeps P (if test then left else right)
if-Keeps P true left right l r = l refl
if-Keeps P false left right l r = r

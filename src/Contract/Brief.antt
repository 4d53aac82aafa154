-- ===== src/Contract/Brief.antt =====
-- The data and the text functions of internal/contract/authoring.go.
pub mod Fields
pub mod Parse
use Prim.Native.Char.{Char, code}
use ao_covenant.Base.{
  ℕ, zero, suc, ◌+◌, ◌-◌, ◌*◌, String, ◌<>◌, Bool, true, false, not, ◌&&◌, ◌||◌, Option, none, some,
  List, [], ◌∷◌, eqb, leb, ltb, ◌==◌, if◌then◌else◌, Outcome, ok, err,
}
use ao_covenant.Base.Dict.{Dict, has, insert}
use ao_covenant.Integers.{ℤ, pos, negsuc}
use ao_covenant.Text.{Host, trim_space, to_lower, map_runes, has_prefix, decimal}
use ao_covenant.Contract.Types.{Obligation}
use ao_covenant.Contract.Validate.{Error}

pub record TaskDraft : Type 0 where
  pub id : String
  pub line : ℕ
  pub kind : String
  pub adapter : String
  pub depends_on : List String
  pub depends_on_lines : List ℕ
  pub obligations : List String
  pub obligation_lines : List ℕ
  pub writes : List String
  pub write_lines : List ℕ
  pub reads : List String
  pub read_lines : List ℕ
  pub timeout_secs : ℤ

pub record StructuredBrief : Type 0 where
  pub objective : String
  pub reads : List String
  pub writes : List String
  pub obligations : List Obligation
  pub obligation_lines : List ℕ
  pub tasks : List TaskDraft

-- What a diagnostic says: a text of its own, or the error of a check of validate.go.
pub data Message : Type 0 where
  says : String → Message
  cause : Error → Message

pub record AuthoringDiagnostic : Type 0 where
  pub code : String
  pub line : ℕ
  pub message : Message

-- `newAuthoringDiagnostic`
abbrev pub new_authoring_diagnostic : String → ℕ → Message → AuthoringDiagnostic
new_authoring_diagnostic code line message = record { code = code; line = line; message = message }

abbrev pub refuse {ℓ} : {A : Type ℓ} → String → ℕ → String → Outcome AuthoringDiagnostic A
refuse code line message = err (new_authoring_diagnostic code line (says message))

-- A string by its first rune, which `strings.Split` and `strings.Cut` look for.
abbrev push_front : Char → List String → List String
push_front c [] = String.◌∷◌ c "" ∷ []
push_front c (w ∷ ws) = String.◌∷◌ c w ∷ ws

-- `strings.Split` at a separator of one rune, given by its code.
unfoldable pub split_at : ℕ → String → List String
split_at separator String.[] = "" ∷ []
split_at separator (String.◌∷◌ c s) =
    let rest = split_at separator s in
    if eqb (code c) separator then "" ∷ rest else push_front c rest

abbrev before_rune : Char → Option (String × String) → Option (String × String)
before_rune c none = none
before_rune c (some (key, value)) = some (String.◌∷◌ c key, value)

-- `strings.Cut(line, ":")`
unfoldable pub cut_colon : String → Option (String × String)
cut_colon String.[] = none
cut_colon (String.◌∷◌ c s) =
    let rest = cut_colon s in if eqb (code c) 58 then some ("", s) else before_rune c rest

abbrev starts_line : String → Bool
starts_line String.[] = false
starts_line (String.◌∷◌ c s) = eqb (code c) 10

-- `strings.ReplaceAll(brief, "\r\n", "\n")`
unfoldable pub unix_lines : String → String
unix_lines String.[] = ""
unix_lines (String.◌∷◌ c s) =
    let rest = unix_lines s in if eqb (code c) 13 && starts_line s then rest else String.◌∷◌ c rest

-- What is left after a prefix of so many runes. The program counts bytes; a heading whose lower case
-- is ASCII while it is not itself is outside the model.
unfoldable pub drop_runes : ℕ → String → String
drop_runes zero s = s
drop_runes (suc n) String.[] = ""
drop_runes (suc n) (String.◌∷◌ c s) = drop_runes n s

unfoldable pub join_lines : List String → String
join_lines [] = ""
join_lines (line ∷ []) = line
join_lines (line ∷ next ∷ lines) = line <> "\n" <> join_lines (next ∷ lines)

abbrev underscore_for : Char → Char
underscore_for c = if eqb (code c) 32 then "_" else c

unfoldable pub normalize_heading : Host → String → String
normalize_heading host raw = to_lower host (trim_space (map_runes underscore_for raw))

abbrev non_empty : String → Option String
non_empty value = if value == "" then none else some value

unfoldable pub parse_bullet : String → Option String
parse_bullet line =
    if not (has_prefix line "- ") then none else non_empty (trim_space (drop_runes 2 line))

abbrev normalized : Host → Option (String × String) → Option (String × String)
normalized host none = none
normalized host (some (key, value)) = some (normalize_heading host key, trim_space value)

unfoldable pub parse_key_value : Host → String → Option (String × String)
parse_key_value host line = normalized host (cut_colon line)

unfoldable pub trimmed_parts : List String → List String
trimmed_parts [] = []
trimmed_parts (part ∷ parts) =
    let rest = trimmed_parts parts in if trim_space part == "" then rest else trim_space part ∷ rest

unfoldable pub split_inline_list : String → List String
split_inline_list raw = trimmed_parts (split_at 44 raw)

unfoldable pub unique_after : Dict Bool → List String → List String
unique_after seen [] = []
unique_after seen (value ∷ values) =
    let rest = unique_after seen values in
    let later = unique_after (insert value true seen) values in
    if has seen value then rest else value ∷ later

abbrev pub unique_strings : List String → List String
unique_strings values = unique_after [] values

-- `strconv.ParseBool` of a text in lower case.
unfoldable pub parse_bool : String → Option Bool
parse_bool value =
    if value == "1" || value == "t" || value == "true"
    then some true
    else if value == "0" || value == "f" || value == "false"
    then some false
    else none

-- The digits of a decimal numeral, read from the left.
unfoldable pub read_digits : ℕ → String → Option ℕ
read_digits n String.[] = some n
read_digits n (String.◌∷◌ c s) =
    let rest = read_digits (n * 10 + (code c - 48)) s in
    if leb 48 (code c) && leb (code c) 57 then rest else none

abbrev at_most_int : Option ℕ → Option ℤ
at_most_int none = none
at_most_int (some n) = if leb n 9223372036854775807 then some (pos n) else none

abbrev negated : Option ℕ → Option ℤ
negated none = none
negated (some zero) = some (pos 0)
negated (some (suc n)) = if leb (suc n) 9223372036854775808 then some (negsuc n) else none

abbrev digits : String → Option ℕ
digits String.[] = none
digits s = read_digits 0 s

-- `strconv.Atoi`: a sign, digits, and a number of 64 bits.
unfoldable pub atoi : String → Option ℤ
atoi String.[] = none
atoi (String.◌∷◌ c s) =
    if eqb (code c) 45
    then negated (digits s)
    else if eqb (code c) 43
    then at_most_int (digits s)
    else at_most_int (digits (String.◌∷◌ c s))

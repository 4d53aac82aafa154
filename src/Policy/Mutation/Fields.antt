-- ===== src/Policy/Mutation/Fields.antt =====
-- The readers of decoded JSON of internal/policy/governance_authority.go. An error is its message.
use ao_covenant.Base.{
  ℕ, String, ◌<>◌, Bool, false, not, ◌||◌, Option, none, some, List, [], ◌∷◌, ◌==◌, Outcome, ok,
  err, fail_if, each,
}
use ao_covenant.Integers.{ℤ, pos}
use ao_covenant.Json.{
  Value, null, number, text, array, object, Items, nil, cons, Fields, get, string_field, bool_field,
}

abbrev pub Check : Type 0
Check = Outcome String (Unit {0})

-- Go's library: `json.Marshal` of a decoded value, which does not fail on one; `int` of the float
-- that a numeral is decoded to; SHA-256 in hexadecimal; and `time.Parse(time.RFC3339, _)`.
pub record Library : Type 0 where
  pub marshal : Value → String
  pub int_of : String → ℤ
  pub sha256 : String → String
  pub parse_time : String → Option ℕ

abbrev pub governance_string_field : Fields → String → String
governance_string_field = string_field

abbrev pub governance_bool_field : Fields → String → Bool
governance_bool_field = bool_field

abbrev as_int : Library → Option Value → ℤ
as_int library (some (number numeral)) = library.int_of numeral
as_int library _ = pos 0

unfoldable pub governance_int_field : Library → Fields → String → ℤ
governance_int_field library document key = as_int library (get document key)

unfoldable pub all_texts : Items → Option (List String)
all_texts nil = some []
all_texts (cons (text s) items) = elim (all_texts items) [ none ↦ none | some ss ↦ some (s ∷ ss) ]
all_texts (cons _ items) = none

unfoldable pub governance_string_slice : Option Value → Option (List String)
governance_string_slice (some (array items)) = all_texts items
governance_string_slice _ = none

unfoldable pub all_objects : Items → Option (List Fields)
all_objects nil = some []
all_objects (cons (object fields) items) = elim (all_objects items) [
  | none ↦ none
  | some documents ↦ some (fields ∷ documents)
]
all_objects (cons _ items) = none

unfoldable pub governance_map_slice : Option Value → Option (List Fields)
governance_map_slice (some (array items)) = all_objects items
governance_map_slice _ = none

-- A missing value is nil, and is written as null.
abbrev pub or_null : Option Value → Value
or_null none = null
or_null (some value) = value

unfoldable pub governance_json_equivalent : Library → Option Value → Option Value → Bool
governance_json_equivalent library left right =
    library.marshal (or_null left) == library.marshal (or_null right)

-- `value, ok := document[key].(map[string]any)`, with an error where it is not ok.
abbrev object_or : String → Option Value → Outcome String Fields
object_or message (some (object fields)) = ok fields
object_or message _ = err message

unfoldable pub required_object : Fields → String → String → Outcome String Fields
required_object document key message = object_or message (get document key)

unfoldable pub string_array_contains : Option Value → String → Bool
string_array_contains (some (array items)) want = items_contain items want
  where
    items_contain : Items → String → Bool
    items_contain nil want = false
    items_contain (cons (text s) items) want = s == want || items_contain items want
    items_contain (cons _ items) want = items_contain items want
string_array_contains _ want = false

unfoldable pub digest_approved_scope : Library → Fields → String
digest_approved_scope library scope = library.sha256 (library.marshal (object scope))

-- The loop over fields that the scope of a ticket shares with its request.
unfoldable pub same_fields : Library → Fields → Fields → List String → String → Check
same_fields library scope request fields message =
    each
      (λ field.
        fail_if (not (governance_json_equivalent library (get scope field) (get request field)))
          message)
      fields

-- The two loops over the authority boundaries.
unfoldable pub boundaries_true : Fields → List String → Check
boundaries_true boundaries fields =
    each
      (λ field.
        fail_if (not (governance_bool_field boundaries field))
          ("authority boundary " <> field <> " must be true"))
      fields

unfoldable pub boundaries_false : Fields → List String → Check
boundaries_false boundaries fields =
    each
      (λ field.
        fail_if (governance_bool_field boundaries field)
          ("authority boundary " <> field <> " must be false"))
      fields

-- The time of a field that must hold one.
abbrev pub time_or : String → Option ℕ → Outcome String ℕ
time_or message none = err message
time_or message (some at) = ok at

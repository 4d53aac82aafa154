-- ===== src/Json.antt =====
-- Decoded JSON, Go's `any` and `map[string]any`. A nil map and an empty one read alike.
use ao_covenant.Base.{
  String, Bool, false, Option, none, some, List, [], ◌∷◌, ◌==◌, if◌then◌else◌, ◌≢◌, All, Bool-cases,
  inl, inr, arith,
}

mutual
  pub data Value : Type 0 where
    null : Value
    boolean : Bool → Value
    number : String → Value
    text : String → Value
    array : Items → Value
    object : Fields → Value

  pub data Items : Type 0 where
    nil : Items
    cons : Value → Items → Items

  pub data Fields : Type 0 where
    empty : Fields
    field : String → Value → Fields → Fields

-- `values[key]`
unfoldable pub get : Fields → String → Option Value
get empty key = none
get (field k v rest) key = if k == key then some v else get rest key

abbrev pub as_object : Option Value → Fields
as_object (some (object fields)) = fields
as_object _ = empty

abbrev pub as_text : Option Value → String
as_text (some (text s)) = s
as_text _ = ""

abbrev pub as_boolean : Option Value → Bool
as_boolean (some (boolean b)) = b
as_boolean _ = false

abbrev pub as_array : Option Value → Items
as_array (some (array items)) = items
as_array _ = nil

-- `nestedMap` of internal/policy/claim_gate.go
unfoldable pub nested_map : Fields → List String → Fields
unfolding get
nested_map root [] = root
nested_map root (key ∷ keys) = nested_map (as_object (get root key)) keys

-- `stringField`
unfoldable pub string_field : Fields → String → String
unfolding get
string_field values key = as_text (get values key)

-- `boolField`
unfoldable pub bool_field : Fields → String → Bool
unfolding get
bool_field values key = as_boolean (get values key)

-- `stringSliceField`
non_empty_texts : Items → List String
non_empty_texts nil = []
non_empty_texts (cons (text s) items) =
    let rest = non_empty_texts items in if s == "" then rest else s ∷ rest
non_empty_texts (cons _ items) = non_empty_texts items

unfoldable pub string_slice_field : Fields → String → List String
unfolding get non_empty_texts
string_slice_field values key = non_empty_texts (as_array (get values key))

non_empty_texts-All : (items : Items) → All (λ s. s ≢ "") (non_empty_texts items)
unfolding non_empty_texts
non_empty_texts-All nil = tt
non_empty_texts-All (cons (text s) items) = elim (Bool-cases (s == "")) [
  | inl e ↦ rw e (non_empty_texts-All items)
  | inr e ↦ rw e (ground arith, non_empty_texts-All items)
]
non_empty_texts-All (cons _ items) = non_empty_texts-All items

-- The texts that `stringSliceField` returns are not empty.
pub string_slice_field-All :
    (values : Fields) (key : String) → All (λ s. s ≢ "") (string_slice_field values key)
unfolding string_slice_field
string_slice_field-All values key = non_empty_texts-All (as_array (get values key))

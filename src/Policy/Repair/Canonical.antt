-- ===== src/Policy/Repair/Canonical.antt =====
-- internal/policy/autonomous_repair_architecture.go: the canonical JSON text of a document, and the
-- digest that is taken of it without the field that holds the digest.
pub mod Ascii
use Prim.Native.Char.{Char, code}
use ao_covenant.Base.{
  ℕ, zero, suc, ◌+◌, ◌-◌, ◌/◌, ◌%◌, String, ◌<>◌, Bool, true, false, ◌||◌, List, [], ◌∷◌, eqb, ltb,
  leb, ◌==◌, string_dec, if◌then◌else◌,
}
use ao_covenant.Json.{
  Value, null, boolean, number, text, array, object, Items, nil, cons, Fields, empty, field,
}

abbrev pub nth_rune : String → ℕ → String
nth_rune String.[] n = ""
nth_rune (String.◌∷◌ c s) zero = String.◌∷◌ c ""
nth_rune (String.◌∷◌ c s) (suc n) = nth_rune s n

unfoldable pub hex_digit : ℕ → String
hex_digit n = nth_rune "0123456789abcdef" n

-- The format `\u%04x`.
unfoldable pub unicode_escape : ℕ → String
unfolding hex_digit
unicode_escape n =
    "\\u"
    <> hex_digit (n / 4096 % 16)
    <> hex_digit (n / 256 % 16)
    <> hex_digit (n / 16 % 16)
    <> hex_digit (n % 16)

-- The two halves that `utf16.EncodeRune` returns.
unfoldable pub surrogate_escapes : ℕ → String
unfolding unicode_escape
surrogate_escapes n =
    unicode_escape (55296 + (n - 65536) / 1024 % 1024)
    <> unicode_escape (56320 + (n - 65536) % 1024)

-- The switch of `writeArchitectureJSONString` on one rune.
unfoldable pub write_rune : Char → String
unfolding unicode_escape surrogate_escapes
write_rune c =
    let n = code c in
    if eqb n 34 || eqb n 92
    then "\\" <> String.◌∷◌ c ""
    else if eqb n 8
    then "\\b"
    else if eqb n 12
    then "\\f"
    else if eqb n 10
    then "\\n"
    else if eqb n 13
    then "\\r"
    else if eqb n 9
    then "\\t"
    else if ltb n 32
    then unicode_escape n
    else if leb n 127
    then String.◌∷◌ c ""
    else if leb n 65535
    then unicode_escape n
    else surrogate_escapes n

unfoldable pub write_runes : String → String
unfolding write_rune
write_runes String.[] = ""
write_runes (String.◌∷◌ c s) = write_rune c <> write_runes s

unfoldable pub write_architecture_json_string : String → String
unfolding write_runes
write_architecture_json_string value = "\"" <> write_runes value <> "\""

-- The order of `sort.Strings`: that of the bytes of UTF-8 is that of the code points.
unfoldable pub string_less : String → String → Bool
string_less s String.[] = false
string_less String.[] (String.◌∷◌ d t) = true
string_less (String.◌∷◌ c s) (String.◌∷◌ d t) =
    let rest = string_less s t in
    if ltb (code c) (code d) then true else if eqb (code c) (code d) then rest else false

-- The keys of an object with their written values, in the order of the keys.
abbrev pub insert_member : String → String → List (String × String) → List (String × String)
insert_member key written [] = (key, written) ∷ []
insert_member key written ((k, w) ∷ members) =
    let later = insert_member key written members in
    if string_less k key then (k, w) ∷ later else (key, written) ∷ (k, w) ∷ members

unfoldable pub join_members : List (String × String) → String
unfolding write_architecture_json_string
join_members [] = ""
join_members ((key, written) ∷ []) = write_architecture_json_string key <> ":" <> written
join_members ((key, written) ∷ next ∷ members) =
    write_architecture_json_string key <> ":" <> written <> "," <> join_members (next ∷ members)

unfoldable mutual
  unfolding write_architecture_json_string join_members string_less

  pub write_architecture_canonical_json : Value → String
  write_architecture_canonical_json null = "null"
  write_architecture_canonical_json (boolean true) = "true"
  write_architecture_canonical_json (boolean false) = "false"
  write_architecture_canonical_json (number numeral) = numeral
  write_architecture_canonical_json (text s) = write_architecture_json_string s
  write_architecture_canonical_json (array items) = "[" <> write_items items <> "]"
  write_architecture_canonical_json (object fields) =
      "{" <> join_members (sorted_members fields) <> "}"

  pub write_items : Items → String
  write_items nil = ""
  write_items (cons item nil) = write_architecture_canonical_json item
  write_items (cons item (cons next items)) =
      write_architecture_canonical_json item <> "," <> write_items (cons next items)

  pub sorted_members : Fields → List (String × String)
  sorted_members empty = []
  sorted_members (field key value fields) =
      insert_member key (write_architecture_canonical_json value) (sorted_members fields)

-- `delete(object, key)`
unfoldable pub without : String → Fields → Fields
without key empty = empty
without key (field k v fields) =
    let rest = without key fields in if k == key then rest else field k v rest

unfoldable pub architecture_canonical_digest : (String → String) → Fields → String → String
unfolding write_architecture_canonical_json without
architecture_canonical_digest sha256 document excluded_field =
    sha256 (write_architecture_canonical_json (object (without excluded_field document)))

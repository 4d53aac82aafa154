-- ===== src/Text.antt =====
-- What the program uses of Go's `strings`, `unicode` and `fmt` packages, over texts as sequences of
-- code points. The program's texts are UTF-8, so a test of a single byte in the ASCII range is a
-- test of one code point.
use Prim.Native.Char.{Char, code}
use ao_covenant.Base.{
  ℕ, zero, suc, ◌/◌, ◌%◌, String, ◌<>◌, Bool, true, false, ◌&&◌, ◌||◌, Option, ltb, leb, eqb,
  string_dec, ◌==◌, if◌then◌else◌, ◌≡◌, refl,
}

-- What is taken from Go's library as it stands: the case table of `unicode.ToLower`, the quoting
-- verb `%q`, and `time.Parse(time.RFC3339, _)`, whose instants are nanoseconds since Go's zero time.
pub record Host : Type 0 where
  pub lower_rune : Char → Char
  pub quote : String → String
  pub parse_time : String → Option ℕ

-- `unicode.IsSpace`
abbrev within : ℕ → ℕ → ℕ → Bool
within lo hi n = leb lo n && leb n hi

unfoldable pub is_space : Char → Bool
is_space c =
    let n = code c in
    within 9 13 n
    || eqb n 32
    || eqb n 133
    || eqb n 160
    || eqb n 5760
    || within 8192 8202 n
    || within 8232 8233 n
    || eqb n 8239
    || eqb n 8287
    || eqb n 12288

unfoldable pub trim_left : String → String
unfolding is_space
trim_left String.[] = ""
trim_left (String.◌∷◌ c s) = let rest = trim_left s in if is_space c then rest else String.◌∷◌ c s

unfoldable pub trim_right : String → String
unfolding is_space
trim_right String.[] = ""
trim_right (String.◌∷◌ c s) =
    let rest = trim_right s in if rest == "" && is_space c then "" else String.◌∷◌ c rest

-- `strings.TrimSpace`
unfoldable pub trim_space : String → String
unfolding trim_left trim_right
trim_space s = trim_right (trim_left s)

unfoldable pub map_runes : (Char → Char) → String → String
map_runes f String.[] = ""
map_runes f (String.◌∷◌ c s) = String.◌∷◌ (f c) (map_runes f s)

-- `strings.ToLower`
abbrev pub to_lower : Host → String → String
to_lower host = map_runes host.lower_rune

-- `strings.ReplaceAll(s, "\\", "/")`
abbrev slash_for : Char → Char
slash_for c = if eqb (code c) 92 then "/" else c

unfoldable pub to_slash : String → String
unfolding map_runes
to_slash = map_runes slash_for

-- `strings.HasPrefix(s, prefix)`
unfoldable pub has_prefix : String → String → Bool
has_prefix s String.[] = true
has_prefix String.[] (String.◌∷◌ c p) = false
has_prefix (String.◌∷◌ d s) (String.◌∷◌ c p) = eqb (code d) (code c) && has_prefix s p

-- `strings.Contains(s, part)`
unfoldable pub contains : String → String → Bool
unfolding has_prefix
contains String.[] part = part == ""
contains (String.◌∷◌ c s) part = has_prefix (String.◌∷◌ c s) part || contains s part

-- A rune that an identifier may have: a-z, 0-9, `_` and `-`.
unfoldable pub is_id_rune : Char → Bool
is_id_rune c = let n = code c in within 97 122 n || within 48 57 n || eqb n 95 || eqb n 45

unfoldable pub all_runes : (Char → Bool) → String → Bool
all_runes p String.[] = true
all_runes p (String.◌∷◌ c s) = p c && all_runes p s

-- The decimal numeral of the verb `%d`.
abbrev pub digit : ℕ → String
digit n =
    if eqb n 0
    then "0"
    else if eqb n 1
    then "1"
    else if eqb n 2
    then "2"
    else if eqb n 3
    then "3"
    else if eqb n 4
    then "4"
    else if eqb n 5
    then "5"
    else if eqb n 6
    then "6"
    else if eqb n 7
    then "7"
    else if eqb n 8
    then "8"
    else "9"

-- The fuel is the number itself: each round divides it by ten.
unfoldable pub decimal_from : ℕ → ℕ → String → String
decimal_from zero n out = digit n <> out
decimal_from (suc fuel) n out =
    let rest = decimal_from fuel (n / 10) (digit (n % 10) <> out) in
    if ltb n 10 then digit n <> out else rest

unfoldable pub decimal : ℕ → String
unfolding decimal_from
decimal n = decimal_from n n ""

-- The numeral of the verb `%06d`.
unfoldable pub decimal6 : ℕ → String
unfolding decimal
decimal6 n =
    if ltb n 10
    then "00000" <> decimal n
    else if ltb n 100
    then "0000" <> decimal n
    else if ltb n 1000
    then "000" <> decimal n
    else if ltb n 10000
    then "00" <> decimal n
    else if ltb n 100000
    then "0" <> decimal n
    else decimal n

decimal_test : decimal 1203 ≡ "1203"
unfolding decimal
decimal_test = refl

trim_test : trim_space " \ta b\n " ≡ "a b"
unfolding trim_space string_dec
trim_test = refl

contains_test : contains "live rollback" "roll" ≡ true
unfolding contains string_dec
contains_test = refl

-- ===== src/Policy/Repair/Strings.antt =====
-- The tests on texts of internal/policy/autonomous_repair_governance.go and
-- autonomous_repair_architecture.go.
use Prim.Native.Char.{Char, code}
use ao_covenant.Base.{
  ℕ, suc, String, Bool, true, false, not, ◌&&◌, ◌||◌, Option, none, some, List, [], ◌∷◌, eqb, leb,
  ◌==◌, length, contains_string, if◌then◌else◌,
}
use ao_covenant.Base.Dict.{Dict, has, insert}
use ao_covenant.Text.{Host, all_runes, contains, has_prefix, to_lower}
use ao_covenant.Paths.{split_slash}

-- `seen` is the map of the values that came before.
unfoldable pub unique_after : Dict Bool → List String → Bool
unfolding has
unique_after seen [] = true
unique_after seen (value ∷ values) =
    let rest = unique_after (insert value true seen) values in
    if value == "" then false else if has seen value then false else rest

abbrev pub unique_nonempty_strings : List String → Bool
unique_nonempty_strings values = unique_after [] values

unfoldable pub every_string_in : List String → List String → Bool
every_string_in [] allowed = true
every_string_in (value ∷ values) allowed =
    let rest = every_string_in values allowed in
    if not (contains_string allowed value) then false else rest

unfoldable pub same_unique_strings : List String → List String → Bool
unfolding every_string_in unique_after
same_unique_strings got want =
    eqb (length got) (length want)
    && unique_nonempty_strings got
    && every_string_in got want
    && every_string_in want got

abbrev two_names : List String → Bool
two_names (owner ∷ name ∷ []) = not (owner == "") && not (name == "")
two_names _ = false

unfoldable pub valid_repository_name : String → Bool
unfolding split_slash
valid_repository_name repository = two_names (split_slash repository)

unfoldable pub rune_count : String → ℕ
rune_count String.[] = 0
rune_count (String.◌∷◌ c s) = suc (rune_count s)

abbrev in_class : ℕ → ℕ → Char → Bool
in_class low high c = leb low (code c) && leb (code c) high

abbrev is_lower_or_digit : Char → Bool
is_lower_or_digit c = in_class 97 122 c || in_class 48 57 c

abbrev is_run_id_rune : Char → Bool
is_run_id_rune c = is_lower_or_digit c || eqb (code c) 45

abbrev is_hex_rune : Char → Bool
is_hex_rune c = in_class 48 57 c || in_class 97 102 c

-- `^[a-z0-9][a-z0-9-]{7,127}$`
unfoldable pub matches_run_id : String → Bool
unfolding rune_count all_runes
matches_run_id String.[] = false
matches_run_id (String.◌∷◌ c s) =
    is_lower_or_digit c
    && all_runes is_run_id_rune s
    && leb 7 (rune_count s)
    && leb (rune_count s) 127

-- `^[0-9a-f]{n}$`
unfoldable pub matches_hex : ℕ → String → Bool
unfolding rune_count all_runes
matches_hex n s = all_runes is_hex_rune s && eqb (rune_count s) n

abbrev pub matches_sha40 : String → Bool
matches_sha40 = matches_hex 40

abbrev pub matches_sha64 : String → Bool
matches_sha64 = matches_hex 64

unfoldable pub every_sha64 : List String → Bool
unfolding matches_hex
every_sha64 [] = true
every_sha64 (value ∷ values) =
    let rest = every_sha64 values in if not (matches_sha64 value) then false else rest

unfoldable pub unique_digest_strings : List String → Bool
unfolding unique_after every_sha64
unique_digest_strings values =
    if eqb (length values) 0 || not (unique_nonempty_strings values)
    then false
    else every_sha64 values

abbrev is_some : Option ℕ → Bool
is_some none = false
is_some (some at) = true

abbrev pub valid_rfc3339 : Host → String → Bool
valid_rfc3339 host value = is_some (host.parse_time value)

unfoldable pub automated_reviewer : Host → String → Bool
unfolding contains has_prefix
automated_reviewer host reviewer_id =
    let normalized = to_lower host reviewer_id in
    contains normalized "automated"
    || contains normalized "[bot]"
    || has_prefix normalized "ao-"
    || has_prefix normalized "codex"

-- The actions of Architecture v1.
abbrev pub architecture_actions : List String
architecture_actions =
    "push_operator_fork" ∷ "open_upstream_draft_pr" ∷ "open_ready_pr" ∷ "request_merge_queue"
    ∷ "auto_merge" ∷ []

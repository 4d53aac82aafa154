-- ===== src/Paths.antt =====
-- Go's `path.Clean` and the path tests that the program makes on its result:
-- internal/policy/protected_paths.go, internal/contract/validate.go, internal/run/executor.go and
-- internal/verify/verifier.go.
pub mod Walk
use Prim.Native.Char.{code}
use ao_covenant.Base.{
  String, ◌<>◌, Bool, true, false, ◌&&◌, ◌||◌, List, [], ◌∷◌, leb, eqb, string_dec, ◌==◌,
  if◌then◌else◌, ◌≡◌, refl,
}
use ao_covenant.Text.{to_slash, has_prefix}

-- The elements between slashes.
abbrev push_front : String → List String → List String
push_front c [] = c ∷ []
push_front c (w ∷ ws) = (c <> w) ∷ ws

unfoldable pub split_slash : String → List String
split_slash String.[] = "" ∷ []
split_slash (String.◌∷◌ c s) =
    let rest = split_slash s in
    if eqb (code c) 47 then "" ∷ rest else push_front (String.◌∷◌ c "") rest

-- What `path.Clean` does with one element; the kept elements stand in a stack, the last on top.
-- A `..` at the bottom of a relative path stays, and at the root it goes.
abbrev pop_or_keep : Bool → List String → List String
pop_or_keep true [] = []
pop_or_keep false [] = ".." ∷ []
pop_or_keep rooted (top ∷ below) = if top == ".." then ".." ∷ top ∷ below else below

unfoldable pub resolve : Bool → List String → String → List String
resolve rooted stack element =
    if element == "" || element == "."
    then stack
    else if element == ".."
    then pop_or_keep rooted stack
    else element ∷ stack

unfoldable pub resolve_all : Bool → List String → List String → List String
unfolding resolve
resolve_all rooted stack [] = stack
resolve_all rooted stack (e ∷ elements) = resolve_all rooted (resolve rooted stack e) elements

-- The kept elements, joined by slashes from the bottom of the stack up.
unfoldable pub render_onto : List String → String → String
render_onto [] out = out
render_onto (e ∷ stack) out = render_onto stack (e <> ("/" <> out))

unfoldable pub render : List String → String
unfolding render_onto
render [] = ""
render (e ∷ stack) = render_onto stack e

-- `path.IsAbs`
unfoldable pub is_abs : String → Bool
unfolding has_prefix
is_abs p = has_prefix p "/"

unfoldable pub clean : String → String
unfolding is_abs resolve_all split_slash render
clean p =
    if is_abs p
    then "/" <> render (resolve_all true [] (split_slash p))
    else (let kept = render (resolve_all false [] (split_slash p)) in
        if kept == "" then "." else kept)

-- `slashClean`, and `normalizeResource` of the policy package.
unfoldable pub slash_clean : String → String
unfolding clean to_slash
slash_clean raw = clean (to_slash raw)

-- `hasWindowsDrivePrefix`
unfoldable pub has_windows_drive_prefix : String → Bool
has_windows_drive_prefix (String.◌∷◌ drive (String.◌∷◌ c rest)) =
    (leb 65 (code drive) && leb (code drive) 90 || leb 97 (code drive) && leb (code drive) 122)
    && eqb (code c) 58
has_windows_drive_prefix _ = false

-- The test `path.IsAbs(p) || hasWindowsDrivePrefix(p) || p == ".." || strings.HasPrefix(p, "../")`.
unfoldable pub escapes : String → Bool
escapes p = is_abs p || has_windows_drive_prefix p || p == ".." || has_prefix p "../"

clean_test : clean "a/./b//../c/" ≡ "a/c"
unfolding clean string_dec
clean_test = refl

clean_rooted_test : clean "/../a" ≡ "/a"
unfolding clean string_dec
clean_rooted_test = refl

clean_up_test : clean "a/../../b" ≡ "../b"
unfolding clean string_dec
clean_up_test = refl

-- ===== src/Paths/Walk.antt =====
-- Cleaned paths that pass the escape test never leave the directory that they are joined to.
use text.Mathlib.TextLemmas.{cons-append, cons-ne-nil, nil-append}
use Prim.Native.Char.{Char}
use ao_covenant.Base.{
  ℕ, zero, suc, String, ◌<>◌, Bool, true, false, ◌||◌, Option, none, some, List, [], ◌∷◌,
  string_dec, ◌==◌, eq_of_==, if◌then◌else◌, ◌≡◌, refl, ap, ◌∙◌, arith, length, contains_string,
  Bool-cases, ◌⊎◌, inl, inr,
}
use ao_covenant.Text.{to_slash, has_prefix}
use ao_covenant.Paths.{
  split_slash, resolve, resolve_all, render_onto, render, is_abs, clean, slash_clean, escapes,
}

-- A walk from a directory `depth` levels below the starting point. `none` means that a `..` would
-- leave the starting point.
unfoldable pub walk : ℕ → List String → Option ℕ
walk depth [] = some depth
walk depth (e ∷ elements) =
    let stay = walk depth elements in
    let deeper = walk (suc depth) elements in
    if e == "" || e == "."
    then stay
    else if e == ".."
    then elim depth [ zero ↦ none | suc d ↦ walk d elements ]
    else deeper

abbrev has_up : List String → Bool
has_up stack = contains_string stack ".."

has_up-resolve :
    (rooted : Bool) (stack : List String) (e : String)
    → has_up stack ≡ true
    → has_up (resolve rooted stack e) ≡ true
unfolding resolve
has_up-resolve rooted [] e h = ground arith
has_up-resolve rooted (top ∷ below) e h = ground arith

has_up-resolve_all :
    (rooted : Bool) (stack elements : List String)
    → has_up stack ≡ true
    → has_up (resolve_all rooted stack elements) ≡ true
unfolding resolve_all
has_up-resolve_all rooted stack [] h = h
has_up-resolve_all rooted stack (e ∷ elements) h =
    has_up-resolve_all rooted (resolve rooted stack e) elements (has_up-resolve rooted stack e h)

-- Without a `..` left over, the walk from the stack's depth ends at the final stack's depth.
walk-resolve_all :
    (stack elements : List String)
    → has_up (resolve_all false stack elements) ≡ false
    → walk (length stack) elements ≡ some (length (resolve_all false stack elements))
unfolding walk resolve_all resolve
walk-resolve_all stack [] h = refl
walk-resolve_all [] (e ∷ elements) h = ground (
  arith,
  walk-resolve_all [] elements,
  walk-resolve_all (e ∷ []) elements,
  has_up-resolve_all false (".." ∷ []) elements,
)
walk-resolve_all (top ∷ below) (e ∷ elements) h = ground (
  arith,
  walk-resolve_all (top ∷ below) elements,
  walk-resolve_all (e ∷ top ∷ below) elements,
  walk-resolve_all below elements,
  has_up-resolve_all false (".." ∷ top ∷ below) elements,
)

-- The bottom of a stack.
abbrev bottom : List String → String
bottom [] = ""
bottom (e ∷ []) = e
bottom (e ∷ d ∷ stack) = bottom (d ∷ stack)

-- A `..` that is kept stands at the bottom.
abbrev Grounded : List String → Type 0
Grounded stack = has_up stack ≡ true → bottom stack ≡ ".."

resolve-Grounded :
    (stack : List String) (e : String) → Grounded stack → Grounded (resolve false stack e)
unfolding resolve
resolve-Grounded [] e g h = ground arith
resolve-Grounded (top ∷ []) e g h = ground arith
resolve-Grounded (top ∷ next ∷ below) e g h = ground arith

resolve_all-Grounded :
    (stack elements : List String) → Grounded stack → Grounded (resolve_all false stack elements)
unfolding resolve_all
resolve_all-Grounded stack [] g = g
resolve_all-Grounded stack (e ∷ elements) g =
    resolve_all-Grounded (resolve false stack e) elements (resolve-Grounded stack e g)

dots-append : (out : String) → ".." <> out ≡ String.◌∷◌ "." (String.◌∷◌ "." out)
dots-append out =
    cons-append "." "." out
    ∙ ap (String.◌∷◌ ".") (cons-append "." "" out ∙ ap (String.◌∷◌ ".") (nil-append out))

slash-append : (out : String) → "/" <> out ≡ String.◌∷◌ "/" out
slash-append out = cons-append "/" "" out ∙ ap (String.◌∷◌ "/") (nil-append out)

has_prefix-render_onto :
    (e : String) (stack : List String) (out : String)
    → bottom (e ∷ stack) ≡ ".."
    → has_prefix (render_onto (e ∷ stack) out) "../" ≡ true
unfolding render_onto has_prefix
has_prefix-render_onto e [] out h = rw h (rw (slash-append, dots-append) refl)
has_prefix-render_onto e (d ∷ stack) out h = has_prefix-render_onto d stack _ h

render_up :
    (stack : List String)
    → bottom stack ≡ ".."
    → (render stack ≡ "..") ⊎ (has_prefix (render stack) "../" ≡ true)
unfolding render
render_up [] h = inl h
render_up (e ∷ []) h = unfold render_onto in inl h
render_up (e ∷ d ∷ stack) h = inr (has_prefix-render_onto d stack e h)

slash-clean : (p : String) → is_abs p ≡ true → escapes (clean p) ≡ true
unfolding clean escapes is_abs has_prefix
slash-clean p h = rw h (rw slash-append (ground arith))

up-escapes : (p : String) → (p ≡ "..") ⊎ (has_prefix p "../" ≡ true) → escapes p ≡ true
unfolding escapes
up-escapes p h = ground arith

cons-ne-empty : (c : Char) (p : String) → (String.◌∷◌ c p == "") ≡ false
cons-ne-empty c p = elim (Bool-cases (String.◌∷◌ c p == "")) [
  | inl same ↦ absurd (cons-ne-nil c p (eq_of_== (String.◌∷◌ c p) "" same))
  | inr differ ↦ differ
]

-- A rendered stack that starts with `..` is not empty.
up-ne-nil : (p : String) → (p ≡ "..") ⊎ (has_prefix p "../" ≡ true) → (p == "") ≡ false
unfolding has_prefix string_dec
up-ne-nil p (inl e) = rw e refl
up-ne-nil String.[] (inr e) = cc
up-ne-nil (String.◌∷◌ c p) (inr e) = cons-ne-empty c p

kept-up :
    (p : String)
    → is_abs p ≡ false
    → has_up (resolve_all false [] (split_slash p)) ≡ true
    → escapes (clean p) ≡ true
unfolding clean
kept-up p relative up =
    let stack : List String = resolve_all false [] (split_slash p) in
    let shape = render_up stack (resolve_all-Grounded [] (split_slash p) (λ h. cc) up) in
    rw (relative, up-ne-nil (render stack) shape) (up-escapes (render stack) shape)

-- A path that the escape test passes is relative, and the walk along its own elements, from the
-- directory that it is joined to, never goes above that directory.
pub escapes-walk :
    (raw : String)
    → escapes (slash_clean raw) ≡ false
    → (is_abs (to_slash raw) ≡ false)
      × ((depth : ℕ) × (walk 0 (split_slash (to_slash raw)) ≡ some depth))
unfolding slash_clean
escapes-walk raw h =
    let p : String = to_slash raw in
    elim (Bool-cases (is_abs p)) [
      | inl rooted ↦ cc (slash-clean p rooted)
      | inr relative ↦ elim (Bool-cases (has_up (resolve_all false [] (split_slash p)))) [
        | inl up ↦ cc (kept-up p relative up)
        | inr inside ↦ (relative, (_, walk-resolve_all [] (split_slash p) inside))
      ]
    ]

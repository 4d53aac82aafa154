-- ===== src/Contract/Validate/Names.antt =====
-- Accepted ids and effect types have no NUL, so the key of a side effect determines its parts.
use Prim.Native.Char.{Char, code}
use text.Mathlib.TextLemmas.{cons-append, nil-append, cons-eq-cons, append_cancel_left}
use ao_covenant.Base.{
  String, ◌<>◌, true, Option, none, some, List, [], ◌∷◌, ◌==◌, ◌≡◌, ◌≢◌, ◌⊎◌, inl, inr, refl, sym,
  ap, ap₂, ◌∙◌, arith, subst, All, Any, ok, contains_string, contains_string-append, Bool-cases,
  eq_of_==,
}
use ao_covenant.Text.{Host, trim_space, is_id_rune}
use ao_covenant.Paths.{slash_clean}
use ao_covenant.Policy.Types.{ActionRef}
use ao_covenant.Contract.Types.{Task}
use ao_covenant.Contract.Validate.{
  first_invalid, validate_public_id, allowed_side_effect_type, side_effect_key, nul, effect_keys,
  declared_effects,
}

abbrev pub NulFree : String → Type 0
NulFree String.[] = Unit
NulFree (String.◌∷◌ c s) = (code c ≢ 0) × NulFree s

id_rune-ne-nul : (c : Char) → is_id_rune c ≡ true → code c ≢ 0
unfolding is_id_rune
id_rune-ne-nul c h e = ground arith

some_ne_none : (c : Char) → ◌≢◌ {A = Option Char} (some c) none
some_ne_none c h = cc

valid-NulFree : (s : String) → first_invalid s ≡ none → NulFree s
unfolding first_invalid
valid-NulFree String.[] h = tt
valid-NulFree (String.◌∷◌ c s) h = elim (Bool-cases (is_id_rune c)) [
  | inl good ↦ (id_rune-ne-nul c good, valid-NulFree s (rw good at h))
  | inr bad ↦ absurd (some_ne_none c (rw bad at h))
]

pub public_id-NulFree :
    (host : Host) (label raw : String) → validate_public_id host label raw ≡ ok tt → NulFree raw
unfolding validate_public_id
public_id-NulFree host label raw h =
    let same : trim_space raw ≡ raw = ground arith in
    let valid : first_invalid (trim_space raw) ≡ none = ground arith in
    valid-NulFree raw (rw same at valid)

nul-append : (x : String) → nul <> x ≡ String.◌∷◌ "\0" x
nul-append x = cons-append "\0" "" x ∙ ap (String.◌∷◌ "\0") (nil-append x)

nul-ne-start : (c : Char) (s x y : String) → code c ≢ 0 → nul <> x ≢ String.◌∷◌ c s <> (nul <> y)
nul-ne-start c s x y hc h =
    hc (ap code (sym (cons-eq-cons.0 (sym (nul-append x) ∙ h ∙ cons-append c s (nul <> y))).0))

-- Two texts before a NUL, and what follows it.
nul_split :
    (a b x y : String)
    → NulFree a
    → NulFree b
    → a <> (nul <> x) ≡ b <> (nul <> y)
    → (a ≡ b) × (x ≡ y)
nul_split String.[] String.[] x y _ _ h =
    (refl, append_cancel_left nul x y (sym (nil-append (nul <> x)) ∙ h ∙ nil-append (nul <> y)))
nul_split String.[] (String.◌∷◌ c b) x y _ (hc, hb) h =
    absurd (nul-ne-start c b x y hc (sym (nil-append (nul <> x)) ∙ h))
nul_split (String.◌∷◌ c a) String.[] x y (hc, ha) _ h =
    absurd (nul-ne-start c a y x hc (sym (nil-append (nul <> y)) ∙ sym h))
nul_split (String.◌∷◌ c a) (String.◌∷◌ d b) x y (hc, ha) (hd, hb) h =
    let (same, rest) =
      cons-eq-cons.0 (sym (cons-append c a (nul <> x)) ∙ h ∙ cons-append d b (nul <> y)) in
    let (tails, after) = nul_split a b x y ha hb rest in
    (ap₂ (λ u v. String.◌∷◌ u v) same tails, after)

allowed-cases :
    (type : String)
    → allowed_side_effect_type type ≡ true
    → (type ≡ "file.write")
      ⊎ (type ≡ "file.read")
      ⊎ (type ≡ "process.spawn")
      ⊎ (type ≡ "network.request")
      ⊎ (type ≡ "claim.publish")
unfolding allowed_side_effect_type
allowed-cases type h = ground arith

pub allowed-NulFree : (type : String) → allowed_side_effect_type type ≡ true → NulFree type
allowed-NulFree type h = elim (allowed-cases type h) [
  | inl e ↦ subst NulFree (sym e) (omega arith)
  | inr (inl e) ↦ subst NulFree (sym e) (omega arith)
  | inr (inr (inl e)) ↦ subst NulFree (sym e) (omega arith)
  | inr (inr (inr (inl e))) ↦ subst NulFree (sym e) (omega arith)
  | inr (inr (inr (inr e))) ↦ subst NulFree (sym e) (omega arith)
]

side_effect_key-injective :
    (t t' e e' r r' : String)
    → NulFree t
    → NulFree t'
    → NulFree e
    → NulFree e'
    → side_effect_key t e r ≡ side_effect_key t' e' r'
    → (t ≡ t') × (e ≡ e') × (slash_clean r ≡ slash_clean r')
unfolding side_effect_key
side_effect_key-injective t t' e e' r r' ht ht' he he' h =
    let (same_task, rest) = nul_split t t' _ _ ht ht' h in
    let (same_effect, same_resource) = nul_split e e' _ _ he he' rest in
    (same_task, same_effect, same_resource)

-- The task declares this effect on this resource, up to the resource's normal form.
abbrev pub Declares : String → String → String → Task → Type 0
Declares task_id effect resource task =
    (task.id ≡ task_id)
    × Any (λ a. (a.type ≡ effect) × (slash_clean a.resource ≡ slash_clean resource))
        task.declared_side_effects

-- What the keys need of a task.
abbrev pub Keyed : Task → Type 0
Keyed task = NulFree task.id × All (λ a. NulFree a.type) task.declared_side_effects

module _ (t e r : String) (ht : NulFree t) (he : NulFree e) where
  effect_keys-Any :
      (id : String) (actions : List ActionRef)
      → NulFree id
      → All (λ a. NulFree a.type) actions
      → contains_string (effect_keys id actions) (side_effect_key t e r) ≡ true
      → (id ≡ t) × Any (λ a. (a.type ≡ e) × (slash_clean a.resource ≡ slash_clean r)) actions
  effect_keys-Any id [] hi ha h = cc
  effect_keys-Any id (a ∷ actions) hi (ha, has) h =
      elim (Bool-cases (side_effect_key id a.type a.resource == side_effect_key t e r)) [
        | inl same ↦
            let (task, effect, resource) =
              side_effect_key-injective id t a.type e a.resource r hi ht ha he
                (eq_of_== _ _ same) in
            (task, inl (effect, resource))
        | inr differ ↦
            let (task, rest) = effect_keys-Any id actions hi has (rw differ at h) in
            (task, inr rest)
      ]

  -- A key among the declared ones is that of a declared side effect.
  pub declared_effects-Declares :
      (tasks : List Task)
      → All Keyed tasks
      → contains_string (declared_effects tasks) (side_effect_key t e r) ≡ true
      → Any (Declares t e r) tasks
  unfolding declared_effects
  declared_effects-Declares [] k h = cc
  declared_effects-Declares (task ∷ tasks) ((hi, ha), k) h =
      elim (Bool-cases (
        contains_string (effect_keys task.id task.declared_side_effects) (side_effect_key t e r))) [
          | inl here ↦ inl (effect_keys-Any task.id task.declared_side_effects hi ha here)
          | inr there ↦
              inr (declared_effects-Declares tasks k (rw (contains_string-append, there) at h))
        ]

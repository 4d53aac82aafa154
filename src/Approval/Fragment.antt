-- ===== src/Approval/Fragment.antt =====
-- The characters of a default ticket id.
use text.Mathlib.TextLemmas.{cons-append, nil-append}
use ao_covenant.Base.{String, ◌<>◌, Bool, true, false, none, ◌≡◌, arith, refl}
use ao_covenant.Text.{Host, is_id_rune, all_runes, trim_space, to_lower}
use ao_covenant.Contract.Validate.{first_invalid}
use ao_covenant.Approval.{
  fragment_runes, trim_joiners_left, trim_joiners_right, portable_fragment, default_ticket_id,
}

abbrev IsPlain : String → Type 0
IsPlain s = all_runes is_id_rune s ≡ true

append-IsPlain : (s t : String) → IsPlain s → IsPlain t → IsPlain (s <> t)
unfolding all_runes
append-IsPlain String.[] t hs ht = rw (nil-append t) ht
append-IsPlain (String.◌∷◌ c s) t hs ht =
    let ih : IsPlain (s <> t) = append-IsPlain s t (ground arith) ht in
    rw (cons-append c s t) (ground arith)

fragment_runes-IsPlain : (h u : Bool) (s : String) → IsPlain (fragment_runes h u s)
unfolding all_runes fragment_runes
fragment_runes-IsPlain h u String.[] = refl
fragment_runes-IsPlain h u (String.◌∷◌ c s) =
    let kept = fragment_runes-IsPlain false false s in
    let hyphen = fragment_runes-IsPlain true false s in
    let underscore = fragment_runes-IsPlain false true s in
    let skipped = fragment_runes-IsPlain h u s in
    let dash : is_id_rune "-" ≡ true = unfold is_id_rune in refl in
    let line : is_id_rune "_" ≡ true = unfold is_id_rune in refl in ground arith

trim_left-IsPlain : (s : String) → IsPlain s → IsPlain (trim_joiners_left s)
unfolding all_runes trim_joiners_left
trim_left-IsPlain String.[] h = h
trim_left-IsPlain (String.◌∷◌ c s) h = let ih = trim_left-IsPlain s (ground arith) in ground arith

trim_right-IsPlain : (s : String) → IsPlain s → IsPlain (trim_joiners_right s)
unfolding all_runes trim_joiners_right
trim_right-IsPlain String.[] h = h
trim_right-IsPlain (String.◌∷◌ c s) h = let ih = trim_right-IsPlain s (ground arith) in ground arith

IsPlain-first_invalid : (s : String) → IsPlain s → first_invalid s ≡ none
unfolding all_runes first_invalid
IsPlain-first_invalid String.[] h = refl
IsPlain-first_invalid (String.◌∷◌ c s) h =
    let ih = IsPlain-first_invalid s (ground arith) in ground arith

module _ (host : Host) where
  portable-IsPlain : (raw : String) → IsPlain (portable_fragment host raw)
  unfolding portable_fragment
  portable-IsPlain raw =
      let runes : String = fragment_runes false false (to_lower host (trim_space raw)) in
      trim_right-IsPlain (trim_joiners_left runes) (
        trim_left-IsPlain runes
          (fragment_runes-IsPlain false false (to_lower host (trim_space raw))))

  -- Whatever texts it is made of, a default ticket id has no character that validation refuses.
  pub default_ticket_id-first_invalid :
      (task_id effect_type resource : String)
      → first_invalid (default_ticket_id host task_id effect_type resource) ≡ none
  unfolding default_ticket_id
  default_ticket_id-first_invalid task_id effect_type resource =
      let prefix : IsPlain "approval-" = unfold all_runes is_id_rune in refl in
      let dash : IsPlain "-" = unfold all_runes is_id_rune in refl in
      IsPlain-first_invalid (default_ticket_id host task_id effect_type resource) (
        append-IsPlain "approval-" _ prefix (
          append-IsPlain (portable_fragment host task_id) _ (portable-IsPlain task_id) (
            append-IsPlain "-" _ dash (
              append-IsPlain (portable_fragment host effect_type) _ (portable-IsPlain effect_type)
                (append-IsPlain "-" _ dash (portable-IsPlain resource))))))

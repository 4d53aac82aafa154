-- ===== src/Policy/Repair/Canonical/Ascii.antt =====
-- A canonical text is printable ASCII, so it is the same bytes in every encoding of Unicode.
use package.text.Mathlib.TextLemmas.{cons-append, nil-append}
use Prim.Native.Char.{Char, code}
use ao_covenant.Base.{
  ℕ, zero, suc, ◌/◌, ◌%◌, ◌≤◌, String, ◌<>◌, Bool, true, false, ◌&&◌, ◌||◌, List, [], ◌∷◌, ◌≡◌,
  refl, arith, leb, ltb, eqb, if◌then◌else◌, All, Bool-cases, inl, inr,
}
use ao_covenant.Json.{
  Value, null, boolean, number, text, array, object, Items, nil, cons, Fields, empty, field,
}
use ao_covenant.Text.{all_runes}
use ao_covenant.Policy.Repair.Canonical.{
  nth_rune, hex_digit, unicode_escape, surrogate_escapes, write_rune, write_runes,
  write_architecture_json_string, insert_member, join_members, write_architecture_canonical_json,
  write_items, sorted_members, string_less,
}

-- A rune from the space to 0x7f.
abbrev pub is_printable : Char → Bool
is_printable c = leb 32 (code c) && leb (code c) 127

abbrev pub Printable : String → Type 0
Printable s = all_runes is_printable s ≡ true

pub Printable-append : (s t : String) → Printable s → Printable t → Printable (s <> t)
unfolding all_runes
Printable-append String.[] t hs ht = rw nil-append ht
Printable-append (String.◌∷◌ c s) t hs ht =
    rw cons-append (ground (arith, Printable-append s t, hs, ht))

nth-Printable : (s : String) (n : ℕ) → Printable s → Printable (nth_rune s n)
unfolding all_runes
nth-Printable String.[] n h = refl
nth-Printable (String.◌∷◌ c s) zero h = ground (arith, h)
nth-Printable (String.◌∷◌ c s) (suc n) h = nth-Printable s n (ground (arith, h))

hex_digit-Printable : (n : ℕ) → Printable (hex_digit n)
unfolding hex_digit all_runes
hex_digit-Printable n = nth-Printable "0123456789abcdef" n refl

escape-Printable : (n : ℕ) → Printable (unicode_escape n)
unfolding unicode_escape
escape-Printable n = Printable-append "\\u" _ (unfold all_runes in refl) (
    Printable-append _ _ (hex_digit-Printable (n / 4096 % 16)) (
      Printable-append _ _ (hex_digit-Printable (n / 256 % 16))
        (Printable-append _ _ (hex_digit-Printable (n / 16 % 16)) (hex_digit-Printable (n % 16)))))

surrogates-Printable : (n : ℕ) → Printable (surrogate_escapes n)
unfolding surrogate_escapes
surrogates-Printable n = Printable-append _ _ (escape-Printable _) (escape-Printable _)

-- A rune that stands for itself.
kept-Printable : (c : Char) → 32 ≤ code c → code c ≤ 127 → Printable (String.◌∷◌ c "")
unfolding all_runes
kept-Printable c low high = ground arith

pub pick-Printable :
    (test : Bool) (s t : String)
    → (test ≡ true → Printable s)
    → (test ≡ false → Printable t)
    → Printable (if test then s else t)
pick-Printable true s t first second = first refl
pick-Printable false s t first second = second refl

rune-Printable : (c : Char) → Printable (write_rune c)
unfolding write_rune
rune-Printable c =
    pick-Printable (eqb (code c) 34 || eqb (code c) 92) _ _
      (λ e.
        Printable-append "\\" _ (unfold all_runes in refl)
          (kept-Printable c (ground (arith, e)) (ground (arith, e))))
      (λ _.
        pick-Printable (eqb (code c) 8) "\\b" _ (λ _. unfold all_runes in refl)
          (λ _.
            pick-Printable (eqb (code c) 12) "\\f" _ (λ _. unfold all_runes in refl)
              (λ _.
                pick-Printable (eqb (code c) 10) "\\n" _ (λ _. unfold all_runes in refl)
                  (λ _.
                    pick-Printable (eqb (code c) 13) "\\r" _ (λ _. unfold all_runes in refl)
                      (λ _.
                        pick-Printable (eqb (code c) 9) "\\t" _ (λ _. unfold all_runes in refl)
                          (λ _.
                            pick-Printable (ltb (code c) 32) _ _ (λ _. escape-Printable (code c))
                              (λ high.
                                pick-Printable (leb (code c) 127) _ _
                                  (λ low.
                                    kept-Printable c (ground (arith, high)) (ground (arith, low)))
                                  (λ _.
                                    pick-Printable (leb (code c) 65535) _ _
                                      (λ _. escape-Printable (code c))
                                      (λ _. surrogates-Printable (code c))))))))))

runes-Printable : (s : String) → Printable (write_runes s)
unfolding write_runes
runes-Printable String.[] = unfold all_runes in refl
runes-Printable (String.◌∷◌ c s) = Printable-append _ _ (rune-Printable c) (runes-Printable s)

string-Printable : (s : String) → Printable (write_architecture_json_string s)
unfolding write_architecture_json_string
string-Printable s =
    Printable-append "\"" _ (unfold all_runes in refl)
      (Printable-append _ "\"" (runes-Printable s) (unfold all_runes in refl))

-- A key with the text of its value.
abbrev Member : String × String → Type 0
Member (key, written) = Printable written

insert-Member :
    (key written : String) (members : List (String × String))
    → Printable written
    → All Member members
    → All Member (insert_member key written members)
insert-Member key written [] w h = (w, tt)
insert-Member key written ((k, v) ∷ members) w (first, rest) =
    elim (Bool-cases (string_less k key)) [
      | inl e ↦ rw e (first, insert-Member key written members w rest)
      | inr e ↦ rw e (w, (first, rest))
    ]

join-Printable :
    (members : List (String × String)) → All Member members → Printable (join_members members)
unfolding join_members
join-Printable [] h = unfold all_runes in refl
join-Printable ((key, written) ∷ []) (w, h) =
    Printable-append _ _ (string-Printable key)
      (Printable-append ":" _ (unfold all_runes in refl) w)
join-Printable ((key, written) ∷ next ∷ members) (w, h) =
    Printable-append _ _ (string-Printable key) (
      Printable-append ":" _ (unfold all_runes in refl) (
        Printable-append _ _ w
          (Printable-append "," _ (unfold all_runes in refl) (join-Printable (next ∷ members) h))))

-- The numerals of a value, which the decoder hands on as they stand in its input, are printable.
abbrev mutual
  pub Numeric : Value → Type 0
  Numeric (number numeral) = Printable numeral
  Numeric (array items) = NumericItems items
  Numeric (object fields) = NumericFields fields
  Numeric _ = Unit

  pub NumericItems : Items → Type 0
  NumericItems nil = Unit
  NumericItems (cons item items) = Numeric item × NumericItems items

  pub NumericFields : Fields → Type 0
  NumericFields empty = Unit
  NumericFields (field key value fields) = Numeric value × NumericFields fields

mutual
  unfolding write_architecture_canonical_json all_runes

  -- The canonical text of a value whose numerals are printable has no rune outside the range from the
  -- space to 0x7f, whatever runes its strings and keys hold.
  pub canonical-Printable :
      (v : Value) → Numeric v → Printable (write_architecture_canonical_json v)
  canonical-Printable null h = refl
  canonical-Printable (boolean true) h = refl
  canonical-Printable (boolean false) h = refl
  canonical-Printable (number numeral) h = h
  canonical-Printable (text s) h = string-Printable s
  canonical-Printable (array items) h =
      Printable-append "[" (write_items items <> "]") refl
        (Printable-append (write_items items) "]" (items-Printable items h) refl)
  canonical-Printable (object fields) h =
      Printable-append "{" (join_members (sorted_members fields) <> "}") refl (
        Printable-append (join_members (sorted_members fields)) "}"
          (join-Printable (sorted_members fields) (members-Printable fields h)) refl)

  items-Printable : (items : Items) → NumericItems items → Printable (write_items items)
  items-Printable nil h = refl
  items-Printable (cons item nil) (n, h) = canonical-Printable item n
  items-Printable (cons item (cons next items)) (n, h) =
      Printable-append (write_architecture_canonical_json item)
        ("," <> write_items (cons next items)) (canonical-Printable item n)
        (Printable-append "," (write_items (cons next items)) refl
          (items-Printable (cons next items) h))

  members-Printable : (fields : Fields) → NumericFields fields → All Member (sorted_members fields)
  members-Printable empty h = tt
  members-Printable (field key value fields) (n, h) =
      insert-Member key (write_architecture_canonical_json value) (sorted_members fields)
        (canonical-Printable value n) (members-Printable fields h)

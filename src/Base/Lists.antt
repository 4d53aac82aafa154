-- ===== src/Base/Lists.antt =====
-- Lists measured by native numbers, membership tests on lists of texts, and predicates on lists.
use Prim.Native.Nat.{ℕ, suc, ◌+◌}
use Prim.Native.String.{String}
use mathlib.Core.Path.{◌≡◌, refl}
use mathlib.Core.Bool.{Bool, false, ◌||◌}
use mathlib.Core.List.{List, [], ◌∷◌, ◌++◌}
use native.Mathlib.Omega.{arith}
use mathlib.Core.Logic.{◌⊎◌, inl, inr}
use ao_covenant.Base.Tests.{◌==◌}

module _ {ℓ} {A : Type ℓ} where
  abbrev pub length : List A → ℕ
  length [] = 0
  length (x ∷ xs) = suc (length xs)

  pub length-append : (xs ys : List A) → length (xs ++ ys) ≡ length xs + length ys
  length-append [] ys = omega arith
  length-append (x ∷ xs) ys = omega (arith, length-append xs ys)

module _ {ℓ κ} {A : Type ℓ} (P : A → Type κ) where
  abbrev pub All : List A → Type κ
  All [] = Unit
  All (x ∷ xs) = P x × All xs

  pub All-append : (xs ys : List A) → All xs → All ys → All (xs ++ ys)
  All-append [] ys _ hy = hy
  All-append (x ∷ xs) ys (px, hx) hy = (px, All-append xs ys hx hy)

-- The test `for _, v := range values { if v == target { return true } }; return false`.
abbrev pub contains_string : List String → String → Bool
contains_string [] target = false
contains_string (v ∷ values) target = v == target || contains_string values target

pub contains_string-append :
    (xs ys : List String) (t : String)
    → contains_string (xs ++ ys) t ≡ (contains_string xs t || contains_string ys t)
contains_string-append [] ys t = refl
contains_string-append (x ∷ xs) ys t = ground (arith, contains_string-append xs ys t)

-- Some element satisfies the predicate.
abbrev pub Any {ℓ} : {A : Type ℓ} → (A → Type 0) → List A → Type 0
Any P [] = ⊥
Any P (x ∷ xs) = P x ⊎ Any P xs

-- The element is the first one that satisfies the predicate.
abbrev pub First : {A : Type 0} → (A → Type 0) → List A → A → Type 0
First P [] t = ⊥
First P (x ∷ xs) t = (P x × (t ≡ x)) ⊎ ((¬ P x) × First P xs t)

pub All-map :
    {A : Type 0} (P Q : A → Type 0) (xs : List A) → ((x : A) → P x → Q x) → All P xs → All Q xs
All-map P Q [] f h = tt
All-map P Q (x ∷ xs) f (p, h) = (f x p, All-map P Q xs f h)

pub Any-map :
    {A : Type 0} (P Q : A → Type 0) (xs : List A) → ((x : A) → P x → Q x) → Any P xs → Any Q xs
Any-map P Q (x ∷ xs) f (inl p) = inl (f x p)
Any-map P Q (x ∷ xs) f (inr r) = inr (Any-map P Q xs f r)
Any-map P Q [] f h = absurd h

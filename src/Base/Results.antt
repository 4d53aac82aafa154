-- ===== src/Base/Results.antt =====
-- Go's `(value, error)` results: a value, or an error of the component's own type.
use mathlib.Core.Logic.{◌⊎◌, inl, inr}
use mathlib.Core.Path.{◌≡◌, refl}
use mathlib.Core.Bool.{Bool, true, false}
use mathlib.Core.List.{List, [], ◌∷◌}
use ao_covenant.Base.Lists.{All}

pub data Outcome {ℓ κ} (E : Type ℓ) (A : Type κ) : Type (ℓ ⊔ κ) where
  ok : A → Outcome E A
  err : E → Outcome E A

-- `if err != nil { return err }` after a call whose value the rest uses.
infixl 5 ◌>>=◌ ◌>>◌
abbrev pub ◌>>=◌ {ℓ κ μ} :
    {E : Type ℓ} {A : Type κ} {B : Type μ} → Outcome E A → (A → Outcome E B) → Outcome E B
err failure >>= rest = err failure
ok value >>= rest = rest value

abbrev pub ◌>>◌ {ℓ κ} : {E : Type ℓ} {B : Type κ} → Outcome E (Unit {0}) → Outcome E B → Outcome E B
err failure >> rest = err failure
ok done >> rest = rest

-- `if test { return err }`: the error where the test holds.
abbrev pub fail_if {ℓ} : {E : Type ℓ} → Bool → E → Outcome E (Unit {0})
fail_if true e = err e
fail_if false e = ok tt

-- A loop that stops at the first error.
unfoldable pub each {ℓ κ} :
    {E : Type ℓ} {A : Type κ} → (A → Outcome E (Unit {0})) → List A → Outcome E (Unit {0})
each f [] = ok tt
each f (x ∷ xs) = f x >> each f xs

-- Both halves of a check that succeeds have succeeded.
pub >>-ok {ℓ κ} :
    {E : Type ℓ} {B : Type κ} (check : Outcome E (Unit {0})) (rest : Outcome E B) {value : B}
    → (check >> rest) ≡ ok value
    → (check ≡ ok tt) × (rest ≡ ok value)
>>-ok (err failure) rest h = cc
>>-ok (ok tt) rest h = (refl, h)

pub fail_if-ok {ℓ} : {E : Type ℓ} (test : Bool) (e : E) → fail_if test e ≡ ok tt → test ≡ false
fail_if-ok true e h = cc
fail_if-ok false e h = refl

pub each-ok {ℓ κ} :
    {E : Type ℓ} {A : Type κ} (f : A → Outcome E (Unit {0})) (xs : List A)
    → each f xs ≡ ok tt
    → All (λ x. f x ≡ ok tt) xs
unfolding each
each-ok f [] h = tt
each-ok f (x ∷ xs) h = let (first, rest) = >>-ok (f x) (each f xs) h in (first, each-ok f xs rest)

-- A step that succeeds has handed its value to a rest that succeeds.
pub >>=-ok {ℓ κ μ} :
    {E : Type ℓ} {A : Type κ} {B : Type μ} (step : Outcome E A) (rest : A → Outcome E B) {value : B}
    → (step >>= rest) ≡ ok value
    → (x : A) × (step ≡ ok x) × (rest x ≡ ok value)
>>=-ok (err failure) rest h = cc
>>=-ok (ok x) rest h = (x, refl, h)

-- A chain that fails has failed in its step or in its rest.
pub >>=-err {ℓ κ μ} :
    {E : Type ℓ} {A : Type κ} {B : Type μ} (step : Outcome E A) (rest : A → Outcome E B)
    {failure : E}
    → (step >>= rest) ≡ err failure
    → (step ≡ err failure) ⊎ ((x : A) × (step ≡ ok x) × (rest x ≡ err failure))
>>=-err (err failure) rest h = inl cc
>>=-err (ok x) rest h = inr (x, refl, h)

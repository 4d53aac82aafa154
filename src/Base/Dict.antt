-- ===== src/Base/Dict.antt =====
-- Go maps with string keys, as association lists: a write shadows the earlier entries of its key.
use Prim.Native.String.{String}
use mathlib.Core.Path.{◌≡◌, refl}
use mathlib.Core.Bool.{Bool, false}
use mathlib.Core.Option.{Option, none, some}
use mathlib.Core.List.{List, [], ◌∷◌}
use native.Mathlib.Omega.{arith}
use ao_covenant.Base.Tests.{◌==◌, if◌then◌else◌}

abbrev pub Dict {ℓ} : Type ℓ → Type ℓ
Dict V = List (String × V)

module _ {ℓ} {V : Type ℓ} where
  -- `v, ok := m[k]`
  unfoldable pub lookup : Dict V → String → Option V
  lookup [] k = none
  lookup ((j, v) ∷ m) k = if j == k then some v else lookup m k

  -- `m[k] = v`
  abbrev pub insert : String → V → Dict V → Dict V
  insert k v m = (k, v) ∷ m

  pub lookup-insert :
      (k j : String) (v : V) (m : Dict V)
      → lookup (insert k v m) j ≡ (if k == j then some v else lookup m j)
  unfolding lookup
  lookup-insert k j v m = refl

abbrev or_false : Option Bool → Bool
or_false none = false
or_false (some b) = b

-- `m[k]` of a `map[string]bool`: a missing key reads as false.
unfoldable pub has : Dict Bool → String → Bool
unfolding lookup
has m k = or_false (lookup m k)

pub has-insert :
    (k j : String) (b : Bool) (m : Dict Bool)
    → has (insert k b m) j ≡ (if k == j then b else has m j)
unfolding has
has-insert k j b m = ground arith

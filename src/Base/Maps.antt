-- ===== src/Base/Maps.antt =====
-- Go maps with string keys, as association lists in the order of first insertion.
use mathlib.Core.Path.{◌≡◌, refl}
use mathlib.Core.Bool.{Bool}
use mathlib.Core.Option.{Option, none, some}
use mathlib.Core.List.{List, [], ◌∷◌}
use native.Mathlib.Omega.{arith}
use the_redirector.Base.Tests.{if◌then◌else◌, is_some}
use the_redirector.Base.Text.{Bytes, ◌=s◌, =s_iff}

abbrev pub Dict {ℓ} : Type ℓ → Type ℓ
Dict V = List (Bytes × V)

module _ {ℓ} {V : Type ℓ} where
  -- m[k], with whether the key is there
  unfoldable pub lookup : Dict V → Bytes → Option V
  lookup [] k = none
  lookup ((j, v) ∷ m) k = if j =s k then some v else lookup m k

  -- m[k] = v
  unfoldable pub insert : Dict V → Bytes → V → Dict V
  insert [] k v = (k, v) ∷ []
  insert ((j, w) ∷ m) k v = if j =s k then (k, v) ∷ m else (j, w) ∷ insert m k v

  -- whether the key is there
  unfoldable pub has_key : Dict V → Bytes → Bool
  unfolding lookup
  has_key m k = is_some (lookup m k)

  pub lookup-insert :
      (m : Dict V) (k j : Bytes) (v : V)
      → lookup (insert m k v) j ≡ (if k =s j then some v else lookup m j)
  unfolding lookup insert
  lookup-insert [] k j v = refl
  lookup-insert ((i, w) ∷ m) k j v =
      ground (arith, =s_iff k j, =s_iff i k, =s_iff i j, lookup-insert m k j v)

-- ===== src/Base/Dicts.antt =====
-- Go maps with text keys, as association lists in the order of an iteration. A nil map is `none`.
use Prim.Native.String.{String}
use mathlib.Core.Path.{◌≡◌, refl}
use mathlib.Core.List.{List, [], ◌∷◌}
use mathlib.Core.Option.{Option, none, some}
use native.Mathlib.Omega.{arith}
use text.Mathlib.Text.{◌==◌}
use text.Mathlib.TextEquality.{eq_iff}
use tekton_kueue.Base.Tests.{if◌then◌else◌}

abbrev pub Dict {ℓ} : Type ℓ → Type ℓ
Dict V = List (String × V)

module _ {ℓ} {V : Type ℓ} where
  -- `v, ok := m[k]`
  unfoldable pub lookup : Dict V → String → Option V
  lookup [] k = none
  lookup ((j, v) ∷ m) k = if j == k then some v else lookup m k

  -- `m[k] = v`
  unfoldable pub insert : Dict V → String → V → Dict V
  insert [] k v = (k, v) ∷ []
  insert ((j, w) ∷ m) k v = if j == k then (j, v) ∷ m else (j, w) ∷ insert m k v

  pub lookup-insert :
      (m : Dict V) (k : String) (v : V) (j : String)
      → lookup (insert m k v) j ≡ (if k == j then some v else lookup m j)
  unfolding lookup insert
  lookup-insert [] k v j = refl
  lookup-insert ((i, w) ∷ m) k v j =
      ground (arith, eq_iff i k, eq_iff i j, eq_iff k j, lookup-insert m k v j)

  -- `m[k]` of a map that may be nil
  unfoldable pub find : Option (Dict V) → String → Option V
  find none k = none
  find (some m) k = lookup m k

  -- `if m == nil { m = make(…) }; m[k] = v`
  unfoldable pub assign : Option (Dict V) → String → V → Option (Dict V)
  assign none k v = some ((k, v) ∷ [])
  assign (some m) k v = some (insert m k v)

  pub find-assign :
      (m : Option (Dict V)) (k : String) (v : V) (j : String)
      → find (assign m k v) j ≡ (if k == j then some v else find m j)
  unfolding find assign lookup
  find-assign none k v j = refl
  find-assign (some m) k v j = lookup-insert m k v j

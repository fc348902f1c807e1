-- ===== src/Base/Maps.antt =====
-- A Go map with string keys, as the list of its entries: no key stands twice.

use mathlib.Core.Option.{Option, none, some}
use mathlib.Core.List.{List, [], ◌∷◌}
use mathlib.Core.Path.{◌≡◌, refl}
use native.Mathlib.Omega.{arith}
use avito_kitchen.Base.Tests.{if◌then◌else◌}
use avito_kitchen.Base.Texts.{Text, same}

module _ {ℓ} {V : Type ℓ} where
  -- `m[k]`, with `ok`.
  unfoldable pub map_get : Text → List (Text × V) → Option V
  map_get k [] = none
  map_get k ((j, v) ∷ m) = let rest = map_get k m in if same j k then some v else rest

  -- `m[k] = v`.
  unfoldable pub map_set : Text → V → List (Text × V) → List (Text × V)
  map_set k v [] = (k, v) ∷ []
  map_set k v ((j, w) ∷ m) =
      let rest = map_set k v m in if same j k then (k, v) ∷ m else (j, w) ∷ rest

  pub map_get-map_set :
      (k j : Text) (v : V) (m : List (Text × V))
      → map_get j (map_set k v m) ≡ (if same k j then some v else map_get j m)
  unfolding map_get map_set
  map_get-map_set k j v [] = refl
  map_get-map_set k j v ((i, w) ∷ m) = ground (arith, map_get-map_set k j v m)

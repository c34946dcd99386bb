-- ===== src/Prelude/Assoc.antt =====
-- A table with a text for its primary key, as an association list.
use Prim.Native.String.{String}
use mathlib.Core.Path.{◌≡◌, refl}
use mathlib.Core.Option.{Option, none, some}
use mathlib.Core.List.{List, [], ◌∷◌}
use native.Mathlib.Omega.{arith}
use text.Mathlib.Text.{◌==◌}
use text.Mathlib.TextEquality.{eq_iff}
use paw_toolkit.Prelude.Tests.{if◌then◌else◌}

module _ {ℓ} {V : Type ℓ} where
  unfoldable pub lookup : String → List (String × V) → Option V
  lookup k [] = none
  lookup k ((j, v) ∷ m) = if j == k then some v else lookup k m

  -- `INSERT … ON CONFLICT(key) DO UPDATE`: the row to insert, and the update of a row that is there.
  unfoldable pub upsert : String → V → (V → V) → List (String × V) → List (String × V)
  upsert k v f [] = (k, v) ∷ []
  upsert k v f ((j, w) ∷ m) = if j == k then (j, f w) ∷ m else (j, w) ∷ upsert k v f m

  -- `UPDATE … WHERE key = ?`
  unfoldable pub update : String → (V → V) → List (String × V) → List (String × V)
  update k f [] = []
  update k f ((j, w) ∷ m) = if j == k then (j, f w) ∷ m else (j, w) ∷ update k f m

  abbrev pub updated : (V → V) → Option V → Option V
  updated f none = none
  updated f (some w) = some (f w)

  pub lookup-update :
      (k j : String) (f : V → V) (m : List (String × V))
      → lookup j (update k f m) ≡ (if k == j then updated f (lookup k m) else lookup j m)
  unfolding lookup update
  lookup-update k j f [] = ground arith
  lookup-update k j f ((i, w) ∷ m) =
      ground (arith, eq_iff k j, eq_iff i k, eq_iff i j, lookup-update k j f m)

  abbrev pub upserted : V → (V → V) → Option V → V
  upserted v f none = v
  upserted v f (some w) = f w

  pub lookup-upsert :
      (k j : String) (v : V) (f : V → V) (m : List (String × V))
      → lookup j (upsert k v f m)
        ≡ (if k == j then some (upserted v f (lookup k m)) else lookup j m)
  unfolding lookup upsert
  lookup-upsert k j v f [] = refl
  lookup-upsert k j v f ((i, w) ∷ m) =
      ground (arith, eq_iff k j, eq_iff i k, eq_iff i j, lookup-upsert k j v f m)

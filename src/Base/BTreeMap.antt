-- ===== src/Base/BTreeMap.antt =====
-- Rust's `BTreeMap<String, V>`: entries in ascending order of their keys.
use Prim.Native.Nat.{Ordering}
use Prim.Native.String.{String, compare}
use wasmcloud_operator.Base.Core.{if◌then◌else◌}
use mathlib.Core.Path.{◌≡◌, refl}
use mathlib.Core.Option.{Option, none, some}
use mathlib.Core.List.{List, [], ◌∷◌}
use native.Mathlib.Omega.{arith}
use text.Mathlib.Text.{◌==◌}
use text.Mathlib.TextEquality.{eq_iff}

abbrev pub BTreeMap {ℓ} : Type ℓ → Type ℓ
BTreeMap V = List (String × V)

module _ {ℓ} {V : Type ℓ} where
  unfoldable pub get : String → BTreeMap V → Option V
  get k [] = none
  get k ((j, v) ∷ m) = if j == k then some v else get k m

  unfoldable pub insert : String → V → BTreeMap V → BTreeMap V
  insert k v [] = (k, v) ∷ []
  insert k v ((j, w) ∷ m) =
      let rest = (j, w) ∷ insert k v m in
      elim (compare j k) [
        | Ordering.eq ↦ (k, v) ∷ m
        | Ordering.gt ↦ (k, v) ∷ (j, w) ∷ m
        | Ordering.lt ↦ rest
      ]

  -- `BTreeMap::extend`, `from_iter`: later entries win.
  unfoldable pub extend : BTreeMap V → List (String × V) → BTreeMap V
  extend m [] = m
  extend m ((k, v) ∷ more) = extend (insert k v m) more

  pub get-insert :
      (k j : String) (v : V) (m : BTreeMap V)
      → get j (insert k v m) ≡ (if k == j then some v else get j m)
  unfolding get insert
  get-insert k j v [] = refl
  get-insert k j v ((i, w) ∷ m) =
      ground (arith, eq_iff k j, eq_iff i k, eq_iff i j, get-insert k j v m)

-- ===== src/Base/Maps.antt =====
-- A Go map with string keys, as an association list. Go leaves the order of a `range` over a map
-- open: here it is the order of the list.
use Prim.Native.String.{String}
use mathlib.Core.Path.{◌≡◌}
use mathlib.Core.Bool.{Bool, true, false}
use mathlib.Core.Option.{Option, none, some}
use mathlib.Core.List.{List, [], ◌∷◌}
use native.Mathlib.Omega.{arith}
use text.Mathlib.Text.{◌==◌}
use text.Mathlib.TextEquality.{eq_iff}
use botkube.Base.Tests.{if◌then◌else◌}

abbrev pub Dict {ℓ} : Type ℓ → Type ℓ
Dict V = List (String × V)

module _ {ℓ} {V : Type ℓ} where
  -- `value, ok := entries[key]`
  unfoldable pub lookup : String → Dict V → Option V
  lookup key [] = none
  lookup key ((name, value) ∷ entries) =
      let later = lookup key entries in if name == key then some value else later

  -- `entries[key] = value`
  unfoldable pub insert : String → V → Dict V → Dict V
  insert key value [] = (key, value) ∷ []
  insert key value ((name, old) ∷ entries) =
      let later = insert key value entries in
      if name == key then (key, value) ∷ entries else (name, old) ∷ later

  -- `delete(m, k)`
  unfoldable pub remove : String → Dict V → Dict V
  remove k [] = []
  remove k ((j, v) ∷ m) = let rest = remove k m in if j == k then rest else (j, v) ∷ rest

  -- `m[k]`, with the zero value for a missing key
  abbrev pub get_or_zero : V → String → Dict V → V
  get_or_zero zero k m = elim (lookup k m) [ some v ↦ v | none ↦ zero ]

  -- `_, ok := m[k]`
  abbrev pub has : String → Dict V → Bool
  has k m = elim (lookup k m) [ some _ ↦ true | none ↦ false ]

  -- `maps.Keys(m)`
  abbrev pub keys : Dict V → List String
  keys [] = []
  keys ((k, v) ∷ m) = k ∷ keys m

  pub lookup-insert :
      (set key : String) (value : V) (entries : Dict V)
      → lookup key (insert set value entries)
        ≡ (if set == key then some value else lookup key entries)
  unfolding insert lookup
  lookup-insert set key value [] = ground arith
  lookup-insert set key value ((name, old) ∷ entries) =
      let later = lookup-insert set key value entries in
      ground (arith, later, eq_iff name set, eq_iff name key, eq_iff set key)

  pub lookup-remove :
      (k j : String) (m : Dict V) → lookup j (remove k m) ≡ (if k == j then none else lookup j m)
  unfolding lookup remove
  lookup-remove k j [] = ground arith
  lookup-remove k j ((i, v) ∷ m) =
      ground (arith, eq_iff k j, eq_iff i k, eq_iff i j, lookup-remove k j m)

  pub get_or_zero-insert :
      (zero value : V) (set key : String) (entries : Dict V)
      → get_or_zero zero key (insert set value entries)
        ≡ (if set == key then value else get_or_zero zero key entries)
  get_or_zero-insert zero value set key entries =
      ground (arith, lookup-insert set key value entries)

-- ===== src/Common/Map.antt =====
-- A Go map with string keys, as the list of its entries in the order in which `range` meets them.
-- Go leaves that order open, and so do the theorems, which hold for every list.
-- A nil map reads as an empty one, and the code allocates before it writes: both are `[]`.
use Prim.Native.String.{String}
use mathlib.Core.Path.{◌≡◌, refl}
use mathlib.Core.Option.{Option, none, some}
use mathlib.Core.List.{List, [], ◌∷◌}
use native.Mathlib.Omega.{arith}
use text.Mathlib.Text.{◌==◌}
use text.Mathlib.TextEquality.{eq_iff}
use wto.Common.Tests.{if◌then◌else◌}

abbrev pub Map {ℓ} : Type ℓ → Type ℓ
Map V = List (String × V)

module _ {ℓ} {V : Type ℓ} where
  -- v, ok := m[k]
  unfoldable pub lookup : String → Map V → Option V
  lookup k [] = none
  lookup k ((j, v) ∷ m) = if j == k then some v else lookup k m

  -- m[k] = v
  unfoldable pub insert : String → V → Map V → Map V
  insert k v [] = (k, v) ∷ []
  insert k v ((j, w) ∷ m) = if j == k then (k, v) ∷ m else (j, w) ∷ insert k v m

  -- delete(m, k)
  unfoldable pub erase : String → Map V → Map V
  erase k [] = []
  erase k ((j, w) ∷ m) = let rest = erase k m in if j == k then rest else (j, w) ∷ rest

  -- for k, v := range from { m[k] = v }
  unfoldable pub insert_all : Map V → Map V → Map V
  insert_all [] m = m
  insert_all ((k, v) ∷ from) m = insert_all from (insert k v m)

  -- No key twice, as in every Go map.
  abbrev pub HasUniqueKeys : Map V → Type ℓ
  HasUniqueKeys [] = Unit
  HasUniqueKeys ((k, v) ∷ m) = (lookup k m ≡ none) × HasUniqueKeys m

  abbrev pub or_else : Option V → Option V → Option V
  or_else none o = o
  or_else (some v) o = some v

  -- What a key reads as after a write.
  pub lookup-insert :
      (key asked : String) (new : V) (entries : Map V)
      → lookup asked (insert key new entries)
        ≡ (if key == asked then some new else lookup asked entries)
  unfolding lookup insert
  lookup-insert key asked new [] = refl
  lookup-insert key asked new ((first, old) ∷ entries) =
      let later = lookup-insert key asked new entries in
      ground (arith, eq_iff first key, eq_iff first asked, eq_iff key asked, later)

  pub lookup-erase :
      (k j : String) (m : Map V) → lookup j (erase k m) ≡ (if k == j then none else lookup j m)
  unfolding lookup erase
  lookup-erase k j [] = ground arith
  lookup-erase k j ((i, w) ∷ m) =
      ground (arith, eq_iff k j, eq_iff i k, eq_iff i j, lookup-erase k j m)

  lookup-insert_step :
      (j k : String) (v : V) (from m : Map V)
      → lookup k from ≡ none
      → or_else (lookup j from) (if k == j then some v else lookup j m)
        ≡ or_else (lookup j ((k, v) ∷ from)) (lookup j m)
  unfolding lookup
  lookup-insert_step j k v from m fresh = ground (arith, eq_iff k j)

  pub lookup-insert_all :
      (j : String) (from m : Map V)
      → HasUniqueKeys from
      → lookup j (insert_all from m) ≡ or_else (lookup j from) (lookup j m)
  unfolding insert_all
  lookup-insert_all j [] m h = unfold lookup in refl
  lookup-insert_all j ((k, v) ∷ from) m (fresh, h) =
      rw (lookup-insert_all j from (insert k v m) h, lookup-insert)
        (lookup-insert_step j k v from m fresh)

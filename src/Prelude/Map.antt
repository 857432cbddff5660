-- ===== src/Prelude/Map.antt =====
-- Maps with text keys as association lists: `HashMap`, and `BTreeMap` with its keys in order.
pub mod Distinct
pub mod Sorted
use Prim.Native.Nat.{◌+◌, ◌≤◌, ◌<◌}
use Prim.Native.String.{String}
use mathlib.Core.Path.{◌≡◌, refl}
use mathlib.Core.Bool.{true}
use mathlib.Core.Option.{Option, none, some}
use mathlib.Core.List.{List, [], ◌∷◌}
use native.Mathlib.Omega.{arith}
use text.Mathlib.Text.{◌==◌}
use text.Mathlib.TextEquality.{eq_iff}
use symantic_weft.Prelude.Tests.{if◌then◌else◌, is_some}
use symantic_weft.Prelude.Lists.{length, filter, Among}
use symantic_weft.Prelude.Text.{str_lt}

-- `HashMap<String, V>`; the order of the entries stands for the order of iteration, which Rust
-- leaves open. `BTreeMap<String, V>` is the same with its keys in increasing order.
abbrev pub Map : Type 0 → Type 0
Map V = List (String × V)

module _ {V : Type 0} where
  -- `map.get(key)`
  unfoldable pub lookup : String → Map V → Option V
  lookup key [] = none
  lookup key ((other, value) ∷ entries) =
      let later = lookup key entries in if other == key then some value else later

  -- `hash_map.insert(key, value)`
  unfoldable pub insert : String → V → Map V → Map V
  insert key value [] = (key, value) ∷ []
  insert key value ((other, old) ∷ entries) =
      let later = insert key value entries in
      if other == key then (key, value) ∷ entries else (other, old) ∷ later

  -- `map.remove(k)`
  unfoldable pub remove : String → Map V → Map V
  remove k [] = []
  remove k ((j, w) ∷ m) = let rest = remove k m in if j == k then rest else (j, w) ∷ rest

  -- `map.values()`
  abbrev pub values : Map V → List V
  values [] = []
  values ((k, v) ∷ m) = v ∷ values m

  -- `btree_map.insert(k, v)`
  unfoldable pub insert_sorted : String → V → Map V → Map V
  insert_sorted k v [] = (k, v) ∷ []
  insert_sorted k v ((j, w) ∷ m) =
      let rest = insert_sorted k v m in
      if str_lt k j then (k, v) ∷ (j, w) ∷ m else if j == k then (k, v) ∷ m else (j, w) ∷ rest

  -- `btree_map.range((Bound::Excluded(k), Bound::Unbounded))`
  abbrev pub range_after : String → Map V → Map V
  range_after k = filter (λ e. str_lt k e.0)

  pub lookup-insert :
      (key asked : String) (value : V) (entries : Map V)
      → lookup asked (insert key value entries)
        ≡ (if key == asked then some value else lookup asked entries)
  unfolding lookup insert
  lookup-insert key asked value [] = refl
  lookup-insert key asked value ((other, old) ∷ entries) = ground (
    arith,
    lookup-insert key asked value entries,
    eq_iff other key,
    eq_iff other asked,
    eq_iff key asked,
  )

  pub lookup-insert_sorted :
      (key asked : String) (value : V) (entries : Map V)
      → lookup asked (insert_sorted key value entries)
        ≡ (if key == asked then some value else lookup asked entries)
  unfolding lookup insert_sorted
  lookup-insert_sorted key asked value [] = refl
  lookup-insert_sorted key asked value ((other, old) ∷ entries) = ground (
    arith,
    lookup-insert_sorted key asked value entries,
    eq_iff other key,
    eq_iff other asked,
    eq_iff key asked,
  )

  pub lookup-remove :
      (k j : String) (m : Map V) → lookup j (remove k m) ≡ (if k == j then none else lookup j m)
  unfolding lookup remove
  lookup-remove k j [] = ground arith
  lookup-remove k j ((i, w) ∷ m) =
      ground (arith, eq_iff k j, eq_iff i k, eq_iff i j, lookup-remove k j m)

  pub length-remove-le : (k : String) (m : Map V) → length (remove k m) ≤ length m
  unfolding remove
  length-remove-le k [] = omega arith
  length-remove-le k ((i, w) ∷ m) = ground (arith, length-remove-le k m)

  -- Removing a key that is there makes the map shorter.
  pub length-remove-lt :
      (k : String) (m : Map V) → is_some (lookup k m) ≡ true → length (remove k m) < length m
  unfolding lookup remove
  length-remove-lt k [] h = cc
  length-remove-lt k ((i, w) ∷ m) h = ground (arith, length-remove-le k m, length-remove-lt k m)

  pub length-insert-le : (k : String) (v : V) (m : Map V) → length (insert k v m) ≤ length m + 1
  unfolding insert
  length-insert-le k v [] = omega arith
  length-insert-le k v ((i, w) ∷ m) = ground (arith, length-insert-le k v m)

  -- A write to a key that is there keeps the number of entries.
  pub length-insert_known :
      (k : String) (v : V) (m : Map V)
      → is_some (lookup k m) ≡ true
      → length (insert k v m) ≡ length m
  unfolding lookup insert
  length-insert_known k v [] h = cc
  length-insert_known k v ((i, w) ∷ m) h = ground (arith, length-insert_known k v m)

  pub lookup-Among : (k : String) (v : V) (m : Map V) → lookup k m ≡ some v → Among (k, v) m
  unfolding lookup
  lookup-Among k v [] h = cc
  lookup-Among k v ((i, w) ∷ m) h = ground (arith, eq_iff i k, lookup-Among k v m)

  pub Among-values : (k : String) (v : V) (m : Map V) → Among (k, v) m → Among v (values m)
  Among-values k v [] h = absurd h
  Among-values k v ((i, w) ∷ m) h = ground (arith, Among-values k v m)

  pub length-values : (m : Map V) → length (values m) ≡ length m
  length-values [] = refl
  length-values ((k, v) ∷ m) = omega (arith, length-values m)

-- ===== src/Prelude/Map/Distinct.antt =====
-- Maps in which no key stands twice: every map that is built by `insert` and `remove`.
use symantic_weft.Prelude.Tests.{Bool-cases}
use symantic_weft.Prelude.Lists.{Among, All}
use symantic_weft.Prelude.Map.{Map, lookup, insert, remove, values, lookup-insert, lookup-remove}
use Prim.Native.String.{String}
use mathlib.Core.Path.{◌≡◌, refl}
use mathlib.Core.Logic.{inl, inr}
use mathlib.Core.Option.{none, some}
use mathlib.Core.List.{[], ◌∷◌}
use native.Mathlib.Omega.{arith}
use text.Mathlib.Text.{◌==◌}
use text.Mathlib.TextEquality.{eq_iff}

module _ {V : Type 0} where
  abbrev pub Distinct : Map V → Type 0
  Distinct [] = Unit
  Distinct ((k, v) ∷ m) = (lookup k m ≡ none) × Distinct m

  pub insert-Distinct : (k : String) (v : V) (m : Map V) → Distinct m → Distinct (insert k v m)
  unfolding insert lookup
  insert-Distinct k v [] d = (refl, tt)
  insert-Distinct k v ((j, w) ∷ m) d =
      ground (arith, lookup-insert k j v m, eq_iff j k, eq_iff k j, insert-Distinct k v m)

  pub remove-Distinct : (k : String) (m : Map V) → Distinct m → Distinct (remove k m)
  unfolding remove
  remove-Distinct k [] d = tt
  remove-Distinct k ((j, w) ∷ m) d = ground (arith, lookup-remove k j m, remove-Distinct k m)

  pub lookup_of_Among :
      (k : String) (v : V) (m : Map V) → Distinct m → Among (k, v) m → lookup k m ≡ some v
  unfolding lookup
  lookup_of_Among k v [] d h = absurd h
  lookup_of_Among k v ((j, w) ∷ m) d h = ground (arith, eq_iff j k, lookup_of_Among k v m)

  -- `All` over the entries, kept by writes.
  pub insert-All :
      (P : String × V → Type 0) (k : String) (v : V) (m : Map V)
      → P (k, v)
      → All P m
      → All P (insert k v m)
  unfolding insert
  insert-All P k v [] p h = (p, tt)
  insert-All P k v ((j, w) ∷ m) p h = elim (Bool-cases (j == k)) [
    | inl e ↦ rw e (p, h.1)
    | inr e ↦ rw e (h.0, insert-All P k v m p h.1)
  ]

  pub Among-of_values : (v : V) (m : Map V) → Among v (values m) → (k : String) × Among (k, v) m
  Among-of_values v [] h = absurd h
  Among-of_values v ((j, w) ∷ m) (inl e) = (j, inl (λ i. (j, e i)))
  Among-of_values v ((j, w) ∷ m) (inr h) = let (k, a) = Among-of_values v m h in (k, inr a)

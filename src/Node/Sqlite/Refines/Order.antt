-- ===== src/Node/Sqlite/Refines/Order.antt =====
-- `ORDER BY` on a key column, in packages/node/src/storage/sqlite.rs.
use symantic_weft.Prelude.{
  Bool, true, false, none, some, [], ◌∷◌, String, ◌==◌, ◌≡◌, refl, ap, ◌∙◌, filter, arith, eq_iff,
  if◌then◌else◌,
}
use symantic_weft.Prelude.Map.{Map, lookup, insert_sorted, lookup-insert_sorted}
use symantic_weft.Prelude.Map.Distinct.{Distinct}
use symantic_weft.Prelude.Map.Sorted.{
  IsSorted, Below, Below-trans, filter-Below, insert_sorted-IsSorted,
}
use symantic_weft.Node.Sqlite.Units.{order_by_key}

module _ {V : Type 0} where
  pub order_by_key-IsSorted : (m : Map V) → IsSorted (order_by_key m)
  order_by_key-IsSorted [] = tt
  order_by_key-IsSorted ((k, v) ∷ m) =
      insert_sorted-IsSorted k v (order_by_key m) (order_by_key-IsSorted m)

  pub lookup-order_by_key : (id : String) (m : Map V) → lookup id (order_by_key m) ≡ lookup id m
  unfolding lookup
  lookup-order_by_key id [] = refl
  lookup-order_by_key id ((k, v) ∷ m) =
      lookup-insert_sorted k id v (order_by_key m)
      ∙ ap (λ o. if k == id then some v else o) (lookup-order_by_key id m)

  -- A key below all others goes in front.
  insert_sorted-Below_front :
      (k : String) (v : V) (m : Map V) → Below k m → insert_sorted k v m ≡ (k, v) ∷ m
  unfolding insert_sorted
  insert_sorted-Below_front k v [] b = refl
  insert_sorted-Below_front k v ((j, w) ∷ m) b = rw b.0 refl

  -- What a filter drops can be dropped before the insertion of a new key into a sorted map.
  pub filter-insert_sorted :
      (p : String × V → Bool) (k : String) (v : V) (m : Map V)
      → IsSorted m
      → lookup k m ≡ none
      → filter p (insert_sorted k v m)
        ≡ (if p (k, v) then insert_sorted k v (filter p m) else filter p m)
  unfolding insert_sorted lookup
  filter-insert_sorted p k v [] s fresh = refl
  filter-insert_sorted p k v ((j, w) ∷ m) s fresh = ground (
    arith,
    eq_iff j k,
    insert_sorted-Below_front k v (filter p ((j, w) ∷ m)),
    filter-Below k p ((j, w) ∷ m),
    Below-trans k j m,
    filter-insert_sorted p k v m,
  )

  pub filter-order_by_key :
      (p : String × V → Bool) (m : Map V)
      → Distinct m
      → filter p (order_by_key m) ≡ order_by_key (filter p m)
  filter-order_by_key p [] h = refl
  filter-order_by_key p ((k, v) ∷ m) h =
      filter-insert_sorted p k v (order_by_key m) (order_by_key-IsSorted m)
        (lookup-order_by_key k m ∙ h.0)
      ∙ ap (λ l. if p (k, v) then insert_sorted k v l else l) (filter-order_by_key p m h.1)
      ∙ kept (p (k, v))
    where
      kept :
          (b : Bool)
          → (if b then insert_sorted k v (order_by_key (filter p m)) else order_by_key (filter p m))
            ≡ order_by_key (if b then (k, v) ∷ filter p m else filter p m)
      kept true = refl
      kept false = refl

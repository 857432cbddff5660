-- ===== src/Prelude/Map/Sorted.antt =====
-- Maps with their keys in increasing order, as `BTreeMap` keeps them.
use symantic_weft.Prelude.Tests.{Bool-cases}
use Prim.Native.Nat.{ℕ, zero, suc}
use symantic_weft.Prelude.Lists.{last?, take, drop, All, filter}
use symantic_weft.Prelude.Text.{str_lt, str_lt_trans, str_lt_of_ge, str_lt_asymm, str_lt_irrefl}
use symantic_weft.Prelude.Map.{Map, insert_sorted, values, range_after}
use Prim.Native.String.{String}
use mathlib.Core.Path.{◌≡◌, refl, ap, subst}
use mathlib.Core.Logic.{inl, inr}
use mathlib.Core.Bool.{Bool, true}
use mathlib.Core.Option.{some, some-injective}
use mathlib.Core.List.{[], ◌∷◌, ◌++◌}
use native.Mathlib.Omega.{arith}
use text.Mathlib.Text.{◌==◌}
use text.Mathlib.TextEquality.{eq_iff}

module _ {V : Type 0} where
  -- `k` lies below every key.
  abbrev pub Below : String → Map V → Type 0
  Below k m = All (λ (e : String × V). str_lt k e.0 ≡ true) m

  abbrev pub IsSorted : Map V → Type 0
  IsSorted [] = Unit
  IsSorted ((k, v) ∷ m) = Below k m × IsSorted m

  pub Below-trans : (j k : String) (m : Map V) → str_lt j k ≡ true → Below k m → Below j m
  Below-trans j k [] h b = tt
  Below-trans j k ((i, w) ∷ m) h b = (str_lt_trans j k i h b.0, Below-trans j k m h b.1)

  insert_sorted-Below :
      (j k : String) (v : V) (m : Map V)
      → str_lt j k ≡ true
      → Below j m
      → Below j (insert_sorted k v m)
  unfolding insert_sorted
  insert_sorted-Below j k v [] h b = (h, tt)
  insert_sorted-Below j k v ((i, w) ∷ m) h b = ground (arith, insert_sorted-Below j k v m)

  -- A write keeps the order.
  pub insert_sorted-IsSorted :
      (k : String) (v : V) (m : Map V) → IsSorted m → IsSorted (insert_sorted k v m)
  unfolding insert_sorted
  insert_sorted-IsSorted k v [] s = (tt, tt)
  insert_sorted-IsSorted k v ((j, w) ∷ m) s = elim (Bool-cases (str_lt k j)) [
    | inl e ↦ rw e ((e, Below-trans k j m e s.0), s)
    | inr e ↦ elim (Bool-cases (j == k)) [
      | inl f ↦ rw (e, f) (subst (λ x. Below x m) ((eq_iff j k).0 f) s.0, s.1)
      | inr f ↦
          rw (e, f)
            (
              insert_sorted-Below j k v m (ground (arith, str_lt_of_ge k j, eq_iff j k, eq_iff k j))
                  s.0,
              insert_sorted-IsSorted k v m s.1,
            )
    ]
  ]

  pub filter-Below :
      (k : String) (p : String × V → Bool) (m : Map V) → Below k m → Below k (filter p m)
  filter-Below k p [] b = tt
  filter-Below k p (e ∷ m) b = ground (arith, filter-Below k p m)

  pub filter-IsSorted : (p : String × V → Bool) (m : Map V) → IsSorted m → IsSorted (filter p m)
  filter-IsSorted p [] s = tt
  filter-IsSorted p ((k, v) ∷ m) s = ground (arith, filter-IsSorted p m, filter-Below k p m)

  range_after-Below : (k : String) (m : Map V) → Below k m → range_after k m ≡ m
  range_after-Below k [] b = refl
  range_after-Below k ((j, w) ∷ m) b = rw b.0 (ap (◌∷◌ (j, w)) (range_after-Below k m b.1))

  pub Below-last :
      (k : String) (n : ℕ) (m : Map V) (e : String × V)
      → Below k m
      → last? (take n m) ≡ some e
      → str_lt k e.0 ≡ true
  Below-last k zero m e b h = cc
  Below-last k (suc n) [] e b h = cc
  Below-last k (suc zero) (x ∷ m) e b h = ground arith
  Below-last k (suc (suc n)) (x ∷ []) e b h = ground arith
  Below-last k (suc (suc n)) (x ∷ y ∷ m) e b h = Below-last k (suc n) (y ∷ m) e b.1 h

  pub range_after-last :
      (n : ℕ) (m : Map V) (e : String × V)
      → IsSorted m
      → last? (take n m) ≡ some e
      → range_after e.0 m ≡ drop n m
  range_after-last zero m e s h = cc
  range_after-last (suc n) [] e s h = cc
  range_after-last (suc zero) ((k, v) ∷ m) e s h =
      ground (arith, str_lt_irrefl k, range_after-Below k m s.0)
  range_after-last (suc (suc n)) ((k, v) ∷ []) e s h = ground (arith, str_lt_irrefl k)
  range_after-last (suc (suc n)) ((k, v) ∷ (j, w) ∷ m) e s h = ground (
    arith,
    str_lt_asymm k e.0 (Below-last k (suc n) ((j, w) ∷ m) e s.0 h),
    range_after-last (suc n) ((j, w) ∷ m) e s.1 h,
  )

  -- What lies after a later key is the same in the whole map and in what lies after an earlier key.
  pub range_after-range_after :
      (j k : String) (m : Map V)
      → str_lt j k ≡ true
      → range_after k (range_after j m) ≡ range_after k m
  range_after-range_after j k [] h = refl
  range_after-range_after j k ((i, w) ∷ m) h =
      ground (arith, str_lt_trans j k i h, range_after-range_after j k m h)

  pub filter_comm :
      (p q : String × V → Bool) (m : Map V) → filter p (filter q m) ≡ filter q (filter p m)
  filter_comm p q [] = refl
  filter_comm p q (e ∷ m) = ground (arith, filter_comm p q m)

  pub values-filter :
      (p : V → Bool) (m : Map V) → values (filter (λ e. p e.1) m) ≡ filter p (values m)
  values-filter p [] = refl
  values-filter p ((k, v) ∷ m) = ground (arith, values-filter p m)

  pub values-take : (n : ℕ) (m : Map V) → values (take n m) ≡ take n (values m)
  values-take zero m = refl
  values-take (suc n) [] = refl
  values-take (suc n) ((k, v) ∷ m) = ap (◌∷◌ v) (values-take n m)

  pub values-append : (m n : Map V) → values (m ++ n) ≡ values m ++ values n
  values-append [] n = refl
  values-append ((k, v) ∷ m) n = ap (◌∷◌ v) (values-append m n)

  pub All-filter :
      (Q : String × V → Type 0) (p : String × V → Bool) (m : Map V) → All Q m → All Q (filter p m)
  All-filter Q p [] h = tt
  All-filter Q p (e ∷ m) h = elim (Bool-cases (p e)) [
    | inl t ↦ rw t (h.0, All-filter Q p m h.1)
    | inr t ↦ rw t (All-filter Q p m h.1)
  ]

  pub range_after-Below_self : (k : String) (m : Map V) → Below k (range_after k m)
  range_after-Below_self k [] = tt
  range_after-Below_self k ((j, w) ∷ m) = ground (arith, range_after-Below_self k m)

  pub last?-values : (m : Map V) (e : String × V) → last? m ≡ some e → last? (values m) ≡ some e.1
  last?-values [] e h = cc
  last?-values ((k, v) ∷ []) e h = ground arith
  last?-values ((k, v) ∷ (j, w) ∷ m) e h = last?-values ((j, w) ∷ m) e h

  pub All-last? :
      (Q : String × V → Type 0) (n : ℕ) (m : Map V) (e : String × V)
      → All Q m
      → last? (take n m) ≡ some e
      → Q e
  All-last? Q zero m e a h = cc
  All-last? Q (suc n) [] e a h = cc
  All-last? Q (suc zero) (x ∷ m) e a h = subst Q (some-injective x e h) a.0
  All-last? Q (suc (suc n)) (x ∷ []) e a h = subst Q (some-injective x e h) a.0
  All-last? Q (suc (suc n)) (x ∷ y ∷ m) e a h = All-last? Q (suc n) (y ∷ m) e a.1 h

  pub insert_sorted-All :
      (Q : String × V → Type 0) (k : String) (v : V) (m : Map V)
      → Q (k, v)
      → All Q m
      → All Q (insert_sorted k v m)
  unfolding insert_sorted
  insert_sorted-All Q k v [] q h = (q, tt)
  insert_sorted-All Q k v ((j, w) ∷ m) q h = elim (Bool-cases (str_lt k j)) [
    | inl e ↦ rw e (q, h)
    | inr e ↦ elim (Bool-cases (j == k)) [
      | inl f ↦ rw (e, f) (q, h.1)
      | inr f ↦ rw (e, f) (h.0, insert_sorted-All Q k v m q h.1)
    ]
  ]

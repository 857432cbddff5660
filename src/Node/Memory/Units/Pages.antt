-- ===== src/Node/Memory/Units/Pages.antt =====
-- The pages of `list_units` of packages/node/src/storage/memory.rs, from one cursor to the next.
use symantic_weft.Prelude.{
  ℕ, suc, ◌<◌, ◌≤◌, Bool, true, false, Option, none, some, List, ◌++◌, String, ◌≡◌, refl, sym, ap,
  ◌∙◌, subst, inl, inr, ◌⊎◌, All, filter, take, drop, take_of_length-le, take-take-suc, last?-take,
  length, last?, length-take, take-append-drop, ltb, Result, ok, arith, Bool-cases,
}
use symantic_weft.Prelude.Map.{Map, values, range_after, length-values}
use symantic_weft.Prelude.Map.Sorted.{
  IsSorted, filter-IsSorted, range_after-last, range_after-range_after, filter_comm,
  range_after-Below_self, Below-last, filter-Below, last?-values, All-last?, values-filter,
  values-take, values-append, All-filter,
}
use symantic_weft.Platform.{Platform}
use symantic_weft.Core.Types.{SemanticUnit}
use symantic_weft.Node.Storage.{UnitFilter}
use symantic_weft.Node.Memory.{Inner}
use symantic_weft.Node.Memory.Units.{passes, from_cursor, page, list_units}

-- A page is everything, or the longest prefix within the limit with the flag set.
pub page_cases :
    {A : Type 0} (limit : ℕ) (items : List A)
    → ((limit < length items) × (page limit items ≡ (take limit items, true)))
      ⊎ ((length items ≤ limit) × (page limit items ≡ (items, false)))
unfolding page
page_cases limit items = elim (Bool-cases (ltb limit (length (take (suc limit) items)))) [
  | inl e ↦ inl (
    ground (arith, length-take (suc limit) items),
    rw (e, page) (ap (λ xs. (xs, true)) (take-take-suc limit items)),
  )
  | inr e ↦
      let short : length items ≤ limit = ground (arith, length-take (suc limit) items) in
      inr (
        short,
        rw (e, page) (ap (λ xs. (xs, false)) (take_of_length-le (suc limit) items (omega arith))),
      )
]

module _ {P : Platform} where
  -- The entries that a cursor leaves.
  abbrev pub entries_from : Option String → Map (SemanticUnit P) → Map (SemanticUnit P)
  entries_from none m = m
  entries_from (some after) m = range_after after m

  -- The units that the filter selects behind the cursor.
  abbrev pub remaining : UnitFilter → Inner P → List (SemanticUnit P)
  remaining f s = filter (passes P f) (from_cursor f.after s.units)

  -- The keys stand in order and are the ids of the units.
  pub record IsStored (m : Map (SemanticUnit P)) : Type 0 where
    pub sorted : IsSorted m
    pub keyed : All (λ (e : String × SemanticUnit P). e.1.id ≡ e.0) m

  chosen : UnitFilter → Map (SemanticUnit P) → Map (SemanticUnit P)
  chosen f m = filter (λ e. passes P f e.1) (entries_from f.after m)

  values-chosen : (f : UnitFilter) (s : Inner P) → values (chosen f s.units) ≡ remaining f s
  unfolding chosen
  values-chosen f s = by_cursor f.after
    where
      by_cursor :
          (after : Option String)
          → values (filter (λ e. passes P f e.1) (entries_from after s.units))
            ≡ filter (passes P f) (from_cursor after s.units)
      by_cursor none = values-filter (passes P f) s.units
      by_cursor (some a) = values-filter (passes P f) (range_after a s.units)

  chosen-IsSorted : (f : UnitFilter) (m : Map (SemanticUnit P)) → IsStored m → IsSorted (chosen f m)
  unfolding chosen
  chosen-IsSorted f m h = by_cursor f.after
    where
      by_cursor :
          (after : Option String) → IsSorted (filter (λ e. passes P f e.1) (entries_from after m))
      by_cursor none = filter-IsSorted _ m h.sorted
      by_cursor (some a) = filter-IsSorted _ _ (filter-IsSorted _ m h.sorted)

  chosen-keyed :
      (f : UnitFilter) (m : Map (SemanticUnit P))
      → IsStored m
      → All (λ (e : String × SemanticUnit P). e.1.id ≡ e.0) (chosen f m)
  unfolding chosen
  chosen-keyed f m h = by_cursor f.after
    where
      by_cursor :
          (after : Option String)
          → All
              (λ (e : String × SemanticUnit P). e.1.id ≡ e.0)
              (filter (λ e. passes P f e.1) (entries_from after m))
      by_cursor none = All-filter _ _ m h.keyed
      by_cursor (some a) = All-filter _ _ _ (All-filter _ _ m h.keyed)

  -- Behind the last entry of a prefix lies what the filter selects behind its key.
  drop-chosen :
      (f : UnitFilter) (m : Map (SemanticUnit P)) (n : ℕ) (e : String × SemanticUnit P)
      → IsStored m
      → last? (take n (chosen f m)) ≡ some e
      → drop n (chosen f m) ≡ filter (λ x. passes P f x.1) (range_after e.0 m)
  unfolding chosen
  drop-chosen f m n e h l =
      sym (range_after-last n (chosen f m) e (chosen-IsSorted f m h) l)
      ∙ filter_comm _ _ (entries_from f.after m)
      ∙ ap (filter (λ x. passes P f x.1)) (by_cursor f.after l)
    where
      by_cursor :
          (after : Option String)
          → last? (take n (filter (λ x. passes P f x.1) (entries_from after m))) ≡ some e
          → range_after e.0 (entries_from after m) ≡ range_after e.0 m
      by_cursor none k = refl
      by_cursor (some a) k =
          range_after-range_after a e.0 m
            (Below-last a n _ e (filter-Below a _ _ (range_after-Below_self a m)) k)

  remaining-after :
      (f : UnitFilter) (s : Inner P) (a : String)
      → values (filter (λ (x : String × SemanticUnit P). passes P f x.1) (range_after a s.units))
        ≡ remaining (record f { after = some a }) s
  unfolding passes
  remaining-after f s a = values-filter (passes P f) (range_after a s.units)

  full_page :
      (f : UnitFilter) (s : Inner P)
      → IsStored s.units
      → 0 < f.limit
      → f.limit < length (remaining f s)
      → (u : SemanticUnit P) × (last? (take f.limit (remaining f s)) ≡ some u)
        × (length (take f.limit (remaining f s)) ≡ f.limit)
        × (take f.limit (remaining f s) ++ remaining (record f { after = some u.id }) s
            ≡ remaining f s)
  full_page f s h pos more =
      let n = chosen f s.units in
      let same = values-chosen f s in
      let prefix : values (take f.limit n) ≡ take f.limit (remaining f s) =
        values-take f.limit n ∙ ap (take f.limit) same in
      let last : (e : String × SemanticUnit P) × (last? (take f.limit n) ≡ some e) =
        last?-take f.limit n pos (omega (arith, length-values n, ap length same)) in
      let key : last.0.1.id ≡ last.0.0 =
        All-last? (λ (x : String × SemanticUnit P). x.1.id ≡ x.0) f.limit n last.0
          (chosen-keyed f s.units h) last.1 in
      let rest : values (drop f.limit n) ≡ remaining (record f { after = some last.0.1.id }) s =
        ap values (drop-chosen f s.units f.limit last.0 h last.1)
        ∙ remaining-after f s last.0.0
        ∙ ap (λ a. remaining (record f { after = some a }) s) (sym key) in
      (
        last.0.1,
        subst (λ xs. last? xs ≡ some last.0.1) prefix (last?-values (take f.limit n) last.0 last.1),
        omega (arith, length-take f.limit (remaining f s)),
        (λ i. sym prefix i ++ sym rest i)
            ∙ sym (values-append (take f.limit n) (drop f.limit n))
            ∙ ap values (take-append-drop f.limit n)
            ∙ same,
      )

ok-injective : {A E : Type 0} (a b : A) → ◌≡◌ {A = Result A E} (ok a) (ok b) → a ≡ b
ok-injective a b h = cc

-- From a store whose keys are the ids in order, with a positive limit: a page holds at most `limit`
-- units; without the flag it is all that the filter selects behind the cursor; with the flag it is
-- full and ends in a unit, and the page followed by what the filter selects behind that unit's id
-- is all that the filter selects behind the old cursor. The store is not changed.
pub list_units_pages :
    (P : Platform) (f : UnitFilter) (s t : Inner P) (items : List (SemanticUnit P)) (more : Bool)
    → IsStored s.units
    → 0 < f.limit
    → list_units P f s ≡ (ok (items, more), t)
    → (length items ≤ f.limit)
      × (t ≡ s)
      × (more ≡ false → items ≡ remaining f s)
      × (more ≡ true
          → (u : SemanticUnit P) × (last? items ≡ some u)
            × (length items ≡ f.limit)
            × (items ++ remaining (record f { after = some u.id }) s ≡ remaining f s))
unfolding list_units
list_units_pages P f s t items more h pos e =
    let listed : page f.limit (remaining f s) ≡ (items, more) =
      ok-injective _ _ (ap (λ r. r.0) e) in
    let kept : t ≡ s = sym (ap (λ r. r.1) e) in
    elim (page_cases f.limit (remaining f s)) [
      | inl (longer, p) ↦
          let first : take f.limit (remaining f s) ≡ items = ap (λ r. r.0) (sym p ∙ listed) in
          let full = full_page f s h pos longer in
          (
            subst (λ xs. length xs ≤ f.limit) first (omega (arith, full.2)),
            kept,
            λ no. cc (ap (λ r. r.1) (sym p ∙ listed)),
            λ _.
                subst
                  (λ (xs : List (SemanticUnit P)).
                    (u : SemanticUnit P) × (last? xs ≡ some u)
                    × (length xs ≡ f.limit)
                    × (xs ++ remaining (record f { after = some u.id }) s ≡ remaining f s))
                  first full,
          )
      | inr (shorter, p) ↦
          let all : remaining f s ≡ items = ap (λ r. r.0) (sym p ∙ listed) in
          (
            subst (λ xs. length xs ≤ f.limit) all shorter,
            kept,
            λ _. sym all,
            λ yes. cc (ap (λ r. r.1) (sym p ∙ listed)),
          )
    ]

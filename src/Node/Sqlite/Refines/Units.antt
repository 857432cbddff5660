-- ===== src/Node/Sqlite/Refines/Units.antt =====
-- The unit methods of packages/node/src/storage/sqlite.rs against those of memory.rs.
use symantic_weft.Prelude.{
  ℕ, suc, ◌&&◌, Option, none, some, List, [], ◌∷◌, String, ◌≡◌, refl, ap, ◌∙◌, sym, inl, inr, ◌⊎◌,
  filter, take, arith, Bool-cases, ok, err, subst, concat,
}
use symantic_weft.Prelude.Action.{for_each}
use symantic_weft.Prelude.Map.{Map, lookup, insert_sorted, values}
use symantic_weft.Platform.{Platform}
use symantic_weft.Core.Types.{SemanticUnit, Reference}
use symantic_weft.Node.Storage.{UnitFilter, conflict}
use symantic_weft.Node.Memory.{Inner}
use symantic_weft.Node.Memory.Units as Memory
use symantic_weft.Node.Memory.Units.{page, passes, from_cursor}
use symantic_weft.Node.Sqlite.{Engine, UnitRow, Tables, execute}
use symantic_weft.Node.Sqlite.Units.{
  order_by_key, cut, unit_row, in_edge, put_unit, get_unit, list_units, add_reference,
  add_references, select_units,
}
use symantic_weft.Node.Sqlite.Refines.Order.{lookup-order_by_key, filter-order_by_key}
use symantic_weft.Node.Sqlite.Refines.Rows.{
  IsRow, selected, after_passes, AreRows-filter, order_by_key-AreRows, AreTexts, data_of-AreTexts,
  take-AreTexts, cut-AreTexts, decode_all-AreTexts, lookup-AreRows,
}
use symantic_weft.Node.Sqlite.Refines.Agree.{
  quiet, UnitsAgree, Agree, Simulates, IsEncoded, simulated,
}

module _ {P : Platform} (E : Engine P) where
  -- The references go into their own table, whatever it holds.
  add_reference-edges :
      (id : String) (r : Reference) (t : Tables P)
      → (edges : List (String × String)) × (add_reference P id r t
          ≡ record t { unit_references = edges })
  unfolding add_reference
  add_reference-edges id r t = elim (Bool-cases (in_edge id r.id t.unit_references)) [
    | inl b ↦ (t.unit_references, rw (b, add_reference) refl)
    | inr b ↦ ((id, r.id) ∷ t.unit_references, rw (b, add_reference) refl)
  ]

  all_references-edges :
      (id : String) (refs : List Reference) (t : Tables P)
      → (edges : List (String × String)) × (for_each
            (λ r. execute (add_reference P id r))
            refs
            (quiet t)
          ≡ (ok tt, quiet (record t { unit_references = edges })))
  all_references-edges id [] t = (t.unit_references, refl)
  all_references-edges id (r ∷ refs) t =
      let (edges, e) = add_reference-edges id r t in
      let (all, k) = all_references-edges id refs (record t { unit_references = edges }) in
      (all, ap (λ u. for_each (λ x. execute (add_reference P id x)) refs (quiet u)) e ∙ k)

  add_references-edges :
      (id : String) (refs : Option (List Reference)) (t : Tables P)
      → (edges : List (String × String)) × (add_references P id refs (quiet t)
          ≡ (ok tt, quiet (record t { unit_references = edges })))
  add_references-edges id none t = (t.unit_references, refl)
  add_references-edges id (some refs) t = all_references-edges id refs t

  unit_row-IsRow :
      (u : SemanticUnit P) (d : String)
      → E.from_json d ≡ ok u
      → IsRow E (u.id, unit_row P u d) (u.id, u)
  unfolding unit_row
  unit_row-IsRow u d h = record {
    same_id = refl;
    decodes = h;
    types = refl;
    authors = refl;
    dates = refl;
    visibilities = refl;
  }

  -- A lookup by id finds a row of the unit that the map has.
  pub UnitsAgree-lookup :
      (id : String) (rows : Map (UnitRow P)) (units : Map (SemanticUnit P))
      → UnitsAgree E rows units
      → ((lookup id rows ≡ none) × (lookup id units ≡ none))
        ⊎ ((row : UnitRow P) × (u : SemanticUnit P) × (lookup id rows ≡ some row)
            × (lookup id units ≡ some u)
            × (E.from_json row.json ≡ ok u))
  UnitsAgree-lookup id rows units h =
      let same : lookup id h.index ≡ lookup id units =
        sym (lookup-order_by_key id h.index) ∙ ap (lookup id) h.ordered in
      elim (lookup-AreRows E id rows h.index h.holds) [
        | inl (a, b) ↦ inl (a, sym same ∙ b)
        | inr (row, u, a, b, d) ↦ inr (row, u, a, sym same ∙ b, d)
      ]

  put_unit-taken :
      (u : SemanticUnit P) (row : UnitRow P) (t : Tables P)
      → lookup u.id t.units ≡ some row
      → put_unit P E u (quiet t)
        ≡ (err (conflict (concat "unit " (concat u.id " already exists"))), quiet t)
  unfolding put_unit
  put_unit-taken u row t h = rw (h, put_unit) refl

  put_unit-free :
      (u : SemanticUnit P) (d : String) (t : Tables P)
      → lookup u.id t.units ≡ none
      → E.to_json u ≡ ok d
      → put_unit P E u (quiet t)
        ≡ add_references P u.id u.references
            (quiet (record t { units = (u.id, unit_row P u d) ∷ t.units }))
  unfolding put_unit
  put_unit-free u d t h k = rw (h, k, put_unit) refl

  memory_put-taken :
      (u v : SemanticUnit P) (s : Inner P)
      → lookup u.id s.units ≡ some v
      → Memory.put_unit P u s ≡ (err (conflict (concat "unit " (concat u.id " already exists"))), s)
  unfolding Memory.put_unit
  memory_put-taken u v s h = rw (h, Memory.put_unit) refl

  memory_put-free :
      (u : SemanticUnit P) (s : Inner P)
      → lookup u.id s.units ≡ none
      → Memory.put_unit P u s ≡ (ok tt, record s { units = insert_sorted u.id u s.units })
  unfolding Memory.put_unit
  memory_put-free u s h = rw (h, Memory.put_unit) refl

  -- The new row in front of the others.
  UnitsAgree-new :
      (u : SemanticUnit P) (d : String) (rows : Map (UnitRow P)) (units : Map (SemanticUnit P))
      → E.from_json d ≡ ok u
      → lookup u.id units ≡ none
      → UnitsAgree E rows units
      → UnitsAgree E ((u.id, unit_row P u d) ∷ rows) (insert_sorted u.id u units)
  UnitsAgree-new u d rows units k fresh h = record {
    index = (u.id, u) ∷ h.index;
    holds = (unit_row-IsRow u d k, h.holds);
    distinct =
        (sym (lookup-order_by_key u.id h.index) ∙ ap (lookup u.id) h.ordered ∙ fresh, h.distinct);
    ordered = ap (insert_sorted u.id u) h.ordered;
  }

  Agree-new :
      (u : SemanticUnit P) (d : String) (edges : List (String × String)) (t : Tables P)
      (s : Inner P)
      → E.from_json d ≡ ok u
      → lookup u.id s.units ≡ none
      → Agree E t s
      → Agree E
          (record t { units = (u.id, unit_row P u d) ∷ t.units; unit_references = edges })
          (record s { units = insert_sorted u.id u s.units })
  Agree-new u d edges t s k fresh a = record {
    units = UnitsAgree-new u d t.units s.units k fresh a.units;
    agents = a.agents;
    counts = a.counts;
    follows = a.follows;
    peers = a.peers;
    cursors = a.cursors;
    node_config = a.node_config;
  }

  pub put_unit_refines :
      (u : SemanticUnit P) (t : Tables P) (s : Inner P)
      → IsEncoded E u
      → Agree E t s
      → Simulates E (put_unit P E u (quiet t)) (Memory.put_unit P u s)
  put_unit_refines u t s h a = elim (UnitsAgree-lookup u.id t.units s.units a.units) [
    | inl (x, y) ↦
        let (d, to, back) = h in
        let (edges, e) =
          add_references-edges u.id u.references
            (record t { units = (u.id, unit_row P u d) ∷ t.units }) in
        simulated E (ok tt)
          (record t { units = (u.id, unit_row P u d) ∷ t.units; unit_references = edges })
          (record s { units = insert_sorted u.id u s.units }) (put_unit-free u d t x to ∙ e)
          (memory_put-free u s y) (Agree-new u d edges t s back y a)
    | inr (row, v, x, y, k) ↦
        simulated E (err (conflict (concat "unit " (concat u.id " already exists")))) t s
          (put_unit-taken u row t x) (memory_put-taken u v s y) a
  ]

  get_unit-none :
      (id : String) (t : Tables P)
      → lookup id t.units ≡ none
      → get_unit P E id (quiet t) ≡ (ok none, quiet t)
  unfolding get_unit
  get_unit-none id t h = rw (h, get_unit) refl

  get_unit-some :
      (id : String) (row : UnitRow P) (u : SemanticUnit P) (t : Tables P)
      → lookup id t.units ≡ some row
      → E.from_json row.json ≡ ok u
      → get_unit P E id (quiet t) ≡ (ok (some u), quiet t)
  unfolding get_unit
  get_unit-some id row u t h k = rw (h, k, get_unit) refl

  pub get_unit_refines :
      (id : String) (t : Tables P) (s : Inner P)
      → Agree E t s
      → Simulates E (get_unit P E id (quiet t)) (Memory.get_unit P id s)
  unfolding Memory.get_unit
  get_unit_refines id t s a = elim (UnitsAgree-lookup id t.units s.units a.units) [
    | inl (x, y) ↦ (t, get_unit-none id t x ∙ ap (λ o. (ok o, quiet t)) (sym y), a)
    | inr (row, v, x, y, k) ↦
        (t, get_unit-some id row v t x k ∙ ap (λ o. (ok o, quiet t)) (sym y), a)
  ]

  -- The texts that the query returns, up to one more than a page.
  selected_units : UnitFilter → Map (SemanticUnit P) → List (SemanticUnit P)
  selected_units f m = values (filter (selected E f) m)

  selected_units-passes :
      (f : UnitFilter) (m : Map (SemanticUnit P))
      → selected_units f m ≡ filter (passes P f) (from_cursor f.after m)
  unfolding selected_units
  selected_units-passes f m = by_cursor f.after m
    where
      by_cursor :
          (after : Option String) (n : Map (SemanticUnit P))
          → values (filter (λ g. passes P f g.1 && after_passes E after g.0) n)
            ≡ filter (passes P f) (from_cursor after n)
      by_cursor none [] = refl
      by_cursor none ((k, v) ∷ n) = ground (arith, by_cursor none n)
      by_cursor (some a) [] = refl
      by_cursor (some a) ((k, v) ∷ n) = ground (arith, by_cursor (some a) n)

  select_units-AreTexts :
      (f : UnitFilter) (t : Tables P) (units : Map (SemanticUnit P))
      → UnitsAgree E t.units units
      → AreTexts E
          (select_units P f t)
          (take (suc f.limit) (filter (passes P f) (from_cursor f.after units)))
  unfolding select_units selected_units
  select_units-AreTexts f t units h =
      let texts =
        data_of-AreTexts E _ _
          (order_by_key-AreRows E _ _ (AreRows-filter E f t.units h.index h.holds)) in
      let same : values (order_by_key (filter (selected E f) h.index))
          ≡ filter (passes P f) (from_cursor f.after units) =
        ap values (sym (filter-order_by_key (selected E f) h.index h.distinct))
        ∙ ap (selected_units f) h.ordered
        ∙ selected_units-passes f units in
      take-AreTexts E (suc f.limit) _ _ (subst (AreTexts E _) same texts)

  page-cut :
      {A : Type 0} (limit : ℕ) (items : List A)
      → page limit items ≡ cut limit (take (suc limit) items)
  unfolding page
  page-cut limit items = refl

  list_units-decoded :
      (f : UnitFilter) (t : Tables P) (us : List (SemanticUnit P))
      → AreTexts E (select_units P f t) us
      → list_units P E f (quiet t) ≡ (ok (cut f.limit us), quiet t)
  unfolding list_units
  list_units-decoded f t us h =
      let (kept, flag) = cut-AreTexts E f.limit (select_units P f t) us h in
      rw (decode_all-AreTexts E _ _ kept, flag, list_units) refl

  pub list_units_refines :
      (f : UnitFilter) (t : Tables P) (s : Inner P)
      → Agree E t s
      → Simulates E (list_units P E f (quiet t)) (Memory.list_units P f s)
  unfolding Memory.list_units
  list_units_refines f t s a = (
    t,
    list_units-decoded f t _ (select_units-AreTexts f t s.units a.units)
        ∙ ap (λ r. (ok r, quiet t)) (sym (page-cut f.limit _)),
    a,
  )

-- ===== src/Node/Sqlite/Refines/Rows.antt =====
-- The rows of the table `units` of packages/node/src/storage/sqlite.rs and the units that they hold.
use symantic_weft.Prelude.{
  ℕ, zero, suc, Bool, true, false, ◌&&◌, Option, none, some, List, [], ◌∷◌, String, ◌==◌, str_lt,
  ◌≡◌, refl, ap, ◌∙◌, inl, inr, ◌⊎◌, filter, take, length, arith, Bool-cases, ok, ltb, Result,
}
use symantic_weft.Prelude.Map.{Map, lookup, insert_sorted, values}
use symantic_weft.Platform.{Platform}
use symantic_weft.Core.Types.{
  SemanticUnit, UnitType, Visibility, assertion, question, inference, challenge, constraint, public,
  network, limited, effective_visibility, unit_type_eq, visibility_eq,
}
use symantic_weft.Core.Types.Names.{display_unit_type, display_visibility}
use symantic_weft.Node.Storage.{UnitFilter, StorageError}
use symantic_weft.Node.Memory.Units.{passes, holds_type, holds_visibility, holds_text}
use symantic_weft.Node.Sqlite.{Engine, UnitRow, decode_all}
use symantic_weft.Node.Sqlite.Units.{
  order_by_key, data_of, row_passes, cut, type_names, visibility_names,
}

-- The column holds the text of a value, and is compared by its text.
unit_type_names : (t u : UnitType) → (display_unit_type t == display_unit_type u) ≡ unit_type_eq t u
unfolding display_unit_type
unit_type_names assertion assertion = refl
unit_type_names assertion question = refl
unit_type_names assertion inference = refl
unit_type_names assertion challenge = refl
unit_type_names assertion constraint = refl
unit_type_names question assertion = refl
unit_type_names question question = refl
unit_type_names question inference = refl
unit_type_names question challenge = refl
unit_type_names question constraint = refl
unit_type_names inference assertion = refl
unit_type_names inference question = refl
unit_type_names inference inference = refl
unit_type_names inference challenge = refl
unit_type_names inference constraint = refl
unit_type_names challenge assertion = refl
unit_type_names challenge question = refl
unit_type_names challenge inference = refl
unit_type_names challenge challenge = refl
unit_type_names challenge constraint = refl
unit_type_names constraint assertion = refl
unit_type_names constraint question = refl
unit_type_names constraint inference = refl
unit_type_names constraint challenge = refl
unit_type_names constraint constraint = refl

visibility_texts :
    (v w : Visibility) → (display_visibility v == display_visibility w) ≡ visibility_eq v w
unfolding display_visibility
visibility_texts public public = refl
visibility_texts public network = refl
visibility_texts public limited = refl
visibility_texts network public = refl
visibility_texts network network = refl
visibility_texts network limited = refl
visibility_texts limited public = refl
visibility_texts limited network = refl
visibility_texts limited limited = refl

holds-type_names :
    (l : List UnitType) (t : UnitType)
    → holds_text (type_names l) (display_unit_type t) ≡ holds_type l t
holds-type_names [] t = refl
holds-type_names (u ∷ l) t = rw (unit_type_names u t, holds-type_names l t) refl

holds-visibility_names :
    (l : List Visibility) (v : Visibility)
    → holds_text (visibility_names l) (display_visibility v) ≡ holds_visibility l v
holds-visibility_names [] v = refl
holds-visibility_names (w ∷ l) v = rw (visibility_texts w v, holds-visibility_names l v) refl

is_network : (v : Visibility) → (display_visibility v == "network") ≡ visibility_eq v network
unfolding display_visibility
is_network public = refl
is_network network = refl
is_network limited = refl

module _ {V : Type 0} where
  lookup_here :
      (k id : String) (v : V) (m : Map V) → (k == id) ≡ true → lookup id ((k, v) ∷ m) ≡ some v
  unfolding lookup
  lookup_here k id v m b = rw (b, lookup) refl

  lookup_there :
      (k id : String) (v : V) (m : Map V) → (k == id) ≡ false → lookup id ((k, v) ∷ m) ≡ lookup id m
  unfolding lookup
  lookup_there k id v m b = rw (b, lookup) refl

module _ {P : Platform} (E : Engine P) where
  -- The row holds the unit: its text decodes to it, and the columns have the unit's values.
  pub record IsRow (e : String × UnitRow P) (g : String × SemanticUnit P) : Type 0 where
    pub same_id : e.0 ≡ g.0
    pub decodes : E.from_json e.1.json ≡ ok g.1
    pub types : e.1.unit_type ≡ display_unit_type g.1.unit_type
    pub authors : e.1.author ≡ g.1.author
    pub dates : e.1.created_at ≡ g.1.created_at
    pub visibilities : e.1.visibility ≡ display_visibility (effective_visibility g.1)

  abbrev pub AreRows : Map (UnitRow P) → Map (SemanticUnit P) → Type 0
  AreRows [] [] = Unit
  AreRows (e ∷ m) (g ∷ n) = IsRow e g × AreRows m n
  AreRows [] (g ∷ n) = ⊥
  AreRows (e ∷ m) [] = ⊥

  abbrev pub after_passes : Option String → String → Bool
  after_passes none id = true
  after_passes (some after) id = str_lt after id

  abbrev pub selected : UnitFilter → String × SemanticUnit P → Bool
  selected f g = passes P f g.1 && after_passes f.after g.0

  -- The `WHERE` clause selects the rows of the units that the filter passes.
  row_passes-selected :
      (f : UnitFilter) (e : String × UnitRow P) (g : String × SemanticUnit P)
      → IsRow e g
      → row_passes P f e ≡ selected f g
  unfolding row_passes passes
  row_passes-selected f (i, row) (j, u) h = ground (
    arith,
    h.same_id,
    h.types,
    h.authors,
    h.dates,
    h.visibilities,
    holds-type_names f.unit_types u.unit_type,
    holds-visibility_names f.visibilities (effective_visibility u),
    is_network (effective_visibility u),
  )

  pub AreRows-filter :
      (f : UnitFilter) (m : Map (UnitRow P)) (n : Map (SemanticUnit P))
      → AreRows m n
      → AreRows (filter (row_passes P f) m) (filter (selected f) n)
  AreRows-filter f [] [] h = tt
  AreRows-filter f (e ∷ m) (g ∷ n) h =
      ground (arith, row_passes-selected f e g h.0, AreRows-filter f m n h.1)
  AreRows-filter f [] (g ∷ n) h = absurd h
  AreRows-filter f (e ∷ m) [] h = absurd h

  insert_sorted-AreRows :
      (e : String × UnitRow P) (g : String × SemanticUnit P) (m : Map (UnitRow P))
      (n : Map (SemanticUnit P))
      → IsRow e g
      → AreRows m n
      → AreRows (insert_sorted e.0 e.1 m) (insert_sorted g.0 g.1 n)
  unfolding insert_sorted
  insert_sorted-AreRows e g [] [] r h = (r, tt)
  insert_sorted-AreRows e g (d ∷ m) (c ∷ n) r h =
      rw (r.same_id, h.0.same_id) ground (arith, insert_sorted-AreRows e g m n r h.1)
  insert_sorted-AreRows e g [] (c ∷ n) r h = absurd h
  insert_sorted-AreRows e g (d ∷ m) [] r h = absurd h

  pub order_by_key-AreRows :
      (m : Map (UnitRow P)) (n : Map (SemanticUnit P))
      → AreRows m n
      → AreRows (order_by_key m) (order_by_key n)
  order_by_key-AreRows [] [] h = tt
  order_by_key-AreRows (e ∷ m) (g ∷ n) h =
      insert_sorted-AreRows e g (order_by_key m) (order_by_key n) h.0 (order_by_key-AreRows m n h.1)
  order_by_key-AreRows [] (g ∷ n) h = absurd h
  order_by_key-AreRows (e ∷ m) [] h = absurd h

  -- The texts decode to the units, one by one.
  abbrev pub AreTexts : List String → List (SemanticUnit P) → Type 0
  AreTexts [] [] = Unit
  AreTexts (d ∷ ds) (u ∷ us) = (E.from_json d ≡ ok u) × AreTexts ds us
  AreTexts [] (u ∷ us) = ⊥
  AreTexts (d ∷ ds) [] = ⊥

  pub data_of-AreTexts :
      (m : Map (UnitRow P)) (n : Map (SemanticUnit P))
      → AreRows m n
      → AreTexts (data_of P m) (values n)
  data_of-AreTexts [] [] h = tt
  data_of-AreTexts (e ∷ m) (g ∷ n) h = (h.0.decodes, data_of-AreTexts m n h.1)
  data_of-AreTexts [] (g ∷ n) h = absurd h
  data_of-AreTexts (e ∷ m) [] h = absurd h

  pub take-AreTexts :
      (k : ℕ) (ds : List String) (us : List (SemanticUnit P))
      → AreTexts ds us
      → AreTexts (take k ds) (take k us)
  take-AreTexts zero ds us h = tt
  take-AreTexts (suc k) [] [] h = tt
  take-AreTexts (suc k) (d ∷ ds) (u ∷ us) h = (h.0, take-AreTexts k ds us h.1)
  take-AreTexts (suc k) [] (u ∷ us) h = absurd h
  take-AreTexts (suc k) (d ∷ ds) [] h = absurd h

  pub length-AreTexts :
      (ds : List String) (us : List (SemanticUnit P)) → AreTexts ds us → length ds ≡ length us
  length-AreTexts [] [] h = refl
  length-AreTexts (d ∷ ds) (u ∷ us) h = ap suc (length-AreTexts ds us h.1)
  length-AreTexts [] (u ∷ us) h = absurd h
  length-AreTexts (d ∷ ds) [] h = absurd h

  pub decode_all-AreTexts :
      (ds : List String) (us : List (SemanticUnit P))
      → AreTexts ds us
      → ◌≡◌ {A = Result (List (SemanticUnit P)) StorageError} (decode_all E.from_json ds) (ok us)
  decode_all-AreTexts [] [] h = refl
  decode_all-AreTexts (d ∷ ds) (u ∷ us) h = rw (h.0, decode_all-AreTexts ds us h.1) refl
  decode_all-AreTexts [] (u ∷ us) h = absurd h
  decode_all-AreTexts (d ∷ ds) [] h = absurd h

  pub cut-AreTexts :
      (limit : ℕ) (ds : List String) (us : List (SemanticUnit P))
      → AreTexts ds us
      → AreTexts (cut limit ds).0 (cut limit us).0 × ((cut limit ds).1 ≡ (cut limit us).1)
  cut-AreTexts limit ds us h = elim (Bool-cases (ltb limit (length us))) [
    | inl b ↦ rw (length-AreTexts ds us h, b) (take-AreTexts limit ds us h, refl)
    | inr b ↦ rw (length-AreTexts ds us h, b) (h, refl)
  ]

  -- The row of a unit is found exactly when the unit is.
  pub lookup-AreRows :
      (id : String) (m : Map (UnitRow P)) (n : Map (SemanticUnit P))
      → AreRows m n
      → ((lookup id m ≡ none) × (lookup id n ≡ none))
        ⊎ ((row : UnitRow P) × (u : SemanticUnit P) × (lookup id m ≡ some row)
            × (lookup id n ≡ some u)
            × (E.from_json row.json ≡ ok u))
  unfolding lookup
  lookup-AreRows id [] [] h = inl (refl, refl)
  lookup-AreRows id ((i, row) ∷ m) ((j, u) ∷ n) h =
      let same : (i == id) ≡ (j == id) = ap (λ k. k == id) h.0.same_id in
      elim (Bool-cases (j == id)) [
        | inl b ↦
            inr (row, u, lookup_here i id row m (same ∙ b), lookup_here j id u n b, h.0.decodes)
        | inr b ↦ later (same ∙ b) b (lookup-AreRows id m n h.1)
      ]
    where
      later :
          (i == id) ≡ false
          → (j == id) ≡ false
          → ((lookup id m ≡ none) × (lookup id n ≡ none))
            ⊎ ((r : UnitRow P) × (v : SemanticUnit P) × (lookup id m ≡ some r)
                × (lookup id n ≡ some v)
                × (E.from_json r.json ≡ ok v))
          → ((lookup id ((i, row) ∷ m) ≡ none) × (lookup id ((j, u) ∷ n) ≡ none))
            ⊎ ((r : UnitRow P) × (v : SemanticUnit P) × (lookup id ((i, row) ∷ m) ≡ some r)
                × (lookup id ((j, u) ∷ n) ≡ some v)
                × (E.from_json r.json ≡ ok v))
      later a b (inl h) = inl (lookup_there i id row m a ∙ h.0, lookup_there j id u n b ∙ h.1)
      later a b (inr (r, v, h, k, d)) =
          inr (r, v, lookup_there i id row m a ∙ h, lookup_there j id u n b ∙ k, d)
  lookup-AreRows id [] (g ∷ n) h = absurd h
  lookup-AreRows id (e ∷ m) [] h = absurd h

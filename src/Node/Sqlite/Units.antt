-- ===== src/Node/Sqlite/Units.antt =====
-- The unit methods of packages/node/src/storage/sqlite.rs.
use symantic_weft.Prelude.{
  ℕ, suc, Bool, true, false, not, ◌&&◌, ◌||◌, Option, none, some, List, [], ◌∷◌, String, ◌==◌,
  str_lt, any, filter, take, length, ltb, if◌then◌else◌, is_some, concat,
}
use symantic_weft.Prelude.Action.{pure, fail, from_result, ◌>>=◌, ◌>>◌, for_each}
use symantic_weft.Prelude.Map.{Map, lookup, insert, insert_sorted}
use symantic_weft.Platform.{Platform, clamp_unit}
use symantic_weft.Core.Types.{SemanticUnit, UnitType, Visibility, Reference, effective_visibility}
use symantic_weft.Core.Types.Names.{display_unit_type, display_visibility}
use symantic_weft.Node.Storage.{not_found, conflict, UnitFilter}
use symantic_weft.Node.Memory.Units.{is_empty, holds_text}
use symantic_weft.Node.Sqlite.{
  Engine, UnitRow, Tables, Sql, query, execute, statement, json_result, decode_all,
}

-- `l.iter().map(|t| t.to_string())`
abbrev pub type_names : List UnitType → List String
type_names [] = []
type_names (t ∷ l) = display_unit_type t ∷ type_names l

abbrev pub visibility_names : List Visibility → List String
visibility_names [] = []
visibility_names (v ∷ l) = display_visibility v ∷ visibility_names l

abbrev pub in_edge : String → String → List (String × String) → Bool
in_edge from to edges = any (λ p. (p.0 == from) && (p.1 == to)) edges

-- `ORDER BY id ASC`
abbrev pub order_by_key : {V : Type 0} → Map V → Map V
order_by_key [] = []
order_by_key (e ∷ m) = insert_sorted e.0 e.1 (order_by_key m)

-- `has_more` and the slice, on the rows of a query with `LIMIT limit + 1`
abbrev pub cut : {A : Type 0} → ℕ → List A → List A × Bool
cut limit rows =
    let has_more = ltb limit (length rows) in (if has_more then take limit rows else rows, has_more)

module _ (P : Platform) where
  abbrev pub data_of : Map (UnitRow P) → List String
  data_of [] = []
  data_of (e ∷ m) = e.1.json ∷ data_of m

  -- the row that `INSERT INTO units` is given
  unfoldable pub unit_row : SemanticUnit P → String → UnitRow P
  unfolding display_unit_type display_visibility
  unit_row unit json = record {
    unit_type = display_unit_type unit.unit_type;
    author = unit.author;
    created_at = unit.created_at;
    visibility = display_visibility (effective_visibility unit);
    json = json;
    credibility = none;
  }

  -- `INSERT OR IGNORE INTO unit_references`
  unfoldable pub add_reference : String → Reference → Tables P → Tables P
  add_reference id r t =
      if in_edge id r.id t.unit_references
      then t
      else record t { unit_references = (id, r.id) ∷ t.unit_references }

  abbrev pub add_references : String → Option (List Reference) → Sql P (Unit {0})
  add_references id none = pure tt
  add_references id (some refs) = for_each (λ r. execute (add_reference id r)) refs

  unfoldable pub put_unit : Engine P → SemanticUnit P → Sql P (Unit {0})
  put_unit E unit = do
    exists ← query (λ t. is_some (lookup unit.id t.units))
    (if exists
        then fail (conflict (concat "unit " (concat unit.id " already exists")))
        else pure tt)
    json ← from_result (json_result (E.to_json unit))
    execute (λ t. record t { units = (unit.id, unit_row unit json) ∷ t.units })
    add_references unit.id unit.references

  -- the row's text, decoded
  abbrev pub decode_row : Engine P → Option (UnitRow P) → Sql P (Option (SemanticUnit P))
  decode_row E none = pure none
  decode_row E (some row) = do
    unit ← from_result (json_result (E.from_json row.json))
    pure (some unit)

  unfoldable pub get_unit : Engine P → String → Sql P (Option (SemanticUnit P))
  get_unit E id = do row ← query (λ t. lookup id t.units); decode_row E row

  -- the conditions of the `WHERE` clause that `list_units` builds
  unfoldable pub row_passes : UnitFilter → String × UnitRow P → Bool
  unfolding display_unit_type display_visibility
  row_passes f (id, row) =
      (is_empty f.unit_types || holds_text (type_names f.unit_types) row.unit_type)
      && (elim f.author [ none ↦ true | some a ↦ row.author == a ]
          && (elim f.since [ none ↦ true | some since ↦ not (str_lt row.created_at since) ]
              && (elim f.after [ none ↦ true | some after ↦ str_lt after id ]
                  && (is_empty f.visibilities
                      || (holds_text (visibility_names f.visibilities) row.visibility
                          && (is_empty f.network_for_authors
                              || (not (row.visibility == "network")
                                  || holds_text f.network_for_authors row.author)))))))

  -- `SELECT data FROM units WHERE … ORDER BY id ASC LIMIT limit + 1`
  unfoldable pub select_units : UnitFilter → Tables P → List String
  select_units f t = take (suc f.limit) (data_of (order_by_key (filter (row_passes f) t.units)))

  unfoldable pub list_units : Engine P → UnitFilter → Sql P (List (SemanticUnit P) × Bool)
  list_units E f = do
    rows ← query (select_units f)
    units ← from_result (decode_all E.from_json (cut f.limit rows).0)
    pure (units, (cut f.limit rows).1)

  -- the `JOIN` with `unit_references`, whose primary key makes the pair unique
  unfoldable pub get_referencing_units : Engine P → String → Sql P (List (SemanticUnit P))
  get_referencing_units E id = do
    rows ← query (λ t. data_of (filter (λ e. in_edge e.0 id t.unit_references) t.units))
    from_result (decode_all E.from_json rows)

  -- `UPDATE units SET credibility = ?1 WHERE id = ?2`, and whether a row was changed
  unfoldable pub update_credibility : String → P.f64.Carrier → Tables P → Bool × Tables P
  update_credibility id credibility t = elim (lookup id t.units) [
    | none ↦ (false, t)
    | some row ↦ (
      true,
      record t { units = insert id (record row { credibility = some credibility }) t.units },
    )
  ]

  unfoldable pub set_unit_credibility : String → P.f32.Carrier → Sql P (Unit {0})
  set_unit_credibility id credibility = do
    changed ← statement (update_credibility id (P.widen (clamp_unit P.f32 credibility)))
    (if changed then pure tt else fail not_found)

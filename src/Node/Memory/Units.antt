-- ===== src/Node/Memory/Units.antt =====
-- The unit methods of `MemoryStorage` (packages/node/src/storage/memory.rs).
pub mod Put
pub mod Pages
use symantic_weft.Prelude.{
  ℕ, suc, ◌+◌, Bool, true, false, not, ◌&&◌, ◌||◌, Option, none, some, List, [], ◌∷◌, String, ◌==◌,
  str_lt, any, filter, take, length, ltb, if◌then◌else◌, ok, err, is_some, concat,
}
use symantic_weft.Prelude.Map.{Map, lookup, insert, insert_sorted, values, range_after}
use symantic_weft.Platform.{Platform, clamp_unit}
use symantic_weft.Core.Types.{
  SemanticUnit, UnitType, Visibility, network, unit_type_eq, visibility_eq, effective_visibility,
}
use symantic_weft.Core.Graph.{refers_to}
use symantic_weft.Node.Storage.{not_found, conflict, UnitFilter}
use symantic_weft.Node.Memory.{Inner, Store}

-- `contains` and `is_empty` on the lists of a filter
abbrev pub holds_type : List UnitType → UnitType → Bool
holds_type l t = any (λ u. unit_type_eq u t) l

abbrev pub holds_visibility : List Visibility → Visibility → Bool
holds_visibility l v = any (λ u. visibility_eq u v) l

abbrev pub holds_text : List String → String → Bool
holds_text l s = any (λ t. t == s) l

abbrev pub is_empty {ℓ} : {A : Type ℓ} → List A → Bool
is_empty [] = true
is_empty (x ∷ xs) = false

-- `map.range((Excluded(after), Unbounded)).map(|(_, v)| v)`, or all values
abbrev pub from_cursor : {V : Type 0} → Option String → Map V → List V
from_cursor none m = values m
from_cursor (some after) m = values (range_after after m)

-- `iter.take(limit + 1)`, `has_more` and `truncate`
unfoldable pub page : {A : Type 0} → ℕ → List A → List A × Bool
page limit items =
    let results = take (suc limit) items in
    let has_more = ltb limit (length results) in
    (if has_more then take limit results else results, has_more)

module _ (P : Platform) where
  unfoldable pub put_unit : SemanticUnit P → Store P (Unit {0})
  put_unit unit s =
      if is_some (lookup unit.id s.units)
      then (err (conflict (concat "unit " (concat unit.id " already exists"))), s)
      else (ok tt, record s { units = insert_sorted unit.id unit s.units })

  unfoldable pub get_unit : String → Store P (Option (SemanticUnit P))
  get_unit id s = (ok (lookup id s.units), s)

  -- the closure of `list_units`, one function for each filter
  abbrev pub type_passes : UnitFilter → SemanticUnit P → Bool
  type_passes f u = is_empty f.unit_types || holds_type f.unit_types u.unit_type

  abbrev pub author_passes : UnitFilter → SemanticUnit P → Bool
  author_passes f u = elim f.author [ none ↦ true | some a ↦ u.author == a ]

  abbrev pub since_passes : UnitFilter → SemanticUnit P → Bool
  since_passes f u = elim f.since [ none ↦ true | some since ↦ not (str_lt u.created_at since) ]

  abbrev pub visibility_passes : UnitFilter → SemanticUnit P → Bool
  visibility_passes f u =
      if is_empty f.visibilities
      then true
      else if not (holds_visibility f.visibilities (effective_visibility u))
      then false
      else if visibility_eq (effective_visibility u) network && not (is_empty f.network_for_authors)
      then holds_text f.network_for_authors u.author
      else true

  unfoldable pub passes : UnitFilter → SemanticUnit P → Bool
  passes f u = type_passes f u && (author_passes f u && (since_passes f u && visibility_passes f u))

  unfoldable pub list_units : UnitFilter → Store P (List (SemanticUnit P) × Bool)
  list_units f s = (ok (page f.limit (filter (passes f) (from_cursor f.after s.units))), s)

  unfoldable pub get_referencing_units : String → Store P (List (SemanticUnit P))
  get_referencing_units id s = (ok (filter (λ u. refers_to id u.references) (values s.units)), s)

  unfoldable pub set_unit_credibility : String → P.f32.Carrier → Store P (Unit {0})
  set_unit_credibility id credibility s =
      if is_some (lookup id s.units)
      then (
        ok tt,
        record s { unit_credibility = insert id (clamp_unit P.f32 credibility) s.unit_credibility },
      )
      else (err not_found, s)

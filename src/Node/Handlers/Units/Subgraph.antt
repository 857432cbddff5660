-- ===== src/Node/Handlers/Units/Subgraph.antt =====
-- The handler `subgraph` of packages/node/src/handlers/units.rs: a search through the storage, up
-- to a depth, and then `Graph::subgraph` on what it found.
use symantic_weft.Prelude.{
  ℕ, zero, suc, Option, none, some, List, [], ◌∷◌, ◌++◌, String, if◌then◌else◌, Result, ok, err,
  min, unwrap_or, is_some,
}
use symantic_weft.Prelude.Action.{pure, fail, ◌>>=◌}
use symantic_weft.Prelude.Map.{values}
use symantic_weft.Platform.{Platform}
use symantic_weft.Core.Types.{SemanticUnit, effective_visibility}
use symantic_weft.Core.Graph.{Graph, new, add, get, reference_ids, subgraph}
use symantic_weft.Node.Storage.{StorageError}
use symantic_weft.Node.Memory.Units.{get_unit, get_referencing_units}
use symantic_weft.Node.State.{Handler, stored, attempt, present}
use symantic_weft.Node.Handlers.Units.{is_public, unit_not_found}

module _ (P : Platform) where
  -- the variables of the loops
  pub record Walk : Type 0 where
    pub graph : Graph P
    pub next_frontier : List String

  abbrev pub push : SemanticUnit P → Walk → Walk
  push u w = record { graph = add P w.graph u; next_frontier = w.next_frontier ++ (u.id ∷ []) }

  -- `if let Ok(Some(u)) = … { … }`
  abbrev pub push_found : Result (Option (SemanticUnit P)) StorageError → Walk → Walk
  push_found (ok (some u)) w = push u w
  push_found (ok none) w = w
  push_found (err e) w = w

  -- `for ref_id in outgoing_ids { … }`
  unfoldable pub add_outgoing : List String → Walk → Handler P Walk
  add_outgoing [] w = pure w
  add_outgoing (id ∷ rest) w =
      if is_some (get P w.graph id)
      then add_outgoing rest w
      else (do found ← attempt (get_unit P id); add_outgoing rest (push_found found w))

  -- `for u in incoming { … }`
  unfoldable pub add_incoming : List (SemanticUnit P) → Walk → Walk
  add_incoming [] w = w
  add_incoming (u ∷ us) w = add_incoming us (if is_some (get P w.graph u.id) then w else push u w)

  abbrev pub referenced_ids : Option (SemanticUnit P) → List String
  referenced_ids none = []
  referenced_ids (some u) = elim u.references [ none ↦ [] | some refs ↦ reference_ids P refs ]

  -- `for node_id in &frontier { … }`
  unfoldable pub expand_all : List String → Walk → Handler P Walk
  unfolding add_outgoing add_incoming
  expand_all [] w = pure w
  expand_all (node_id ∷ rest) w = do
    further ← add_outgoing (referenced_ids (get P w.graph node_id)) w
    incoming ← stored (get_referencing_units P node_id)
    expand_all rest (add_incoming incoming further)

  -- `for _ in 0..max_depth { … }`
  unfoldable pub expand_levels : ℕ → List String → Graph P → Handler P (Graph P)
  unfolding expand_all
  expand_levels zero frontier graph = pure graph
  expand_levels (suc depth) [] graph = pure graph
  expand_levels (suc depth) (node_id ∷ rest) graph = do
    w ← expand_all (node_id ∷ rest) (record { graph = graph; next_frontier = [] })
    expand_levels depth w.next_frontier w.graph

  abbrev pub units_of : Option (Graph P) → Option (List (SemanticUnit P))
  units_of none = none
  units_of (some g) = some (values g.units)

  abbrev pub from_root :
      String → Option ℕ → SemanticUnit P → Handler P (Option (List (SemanticUnit P)))
  from_root id depth root = do
    graph ← expand_levels (min (unwrap_or depth 10) 50) (id ∷ []) (add P (new P) root)
    pure (units_of (subgraph P graph id))

  -- the handler; the inner option is the fuel of the search in the graph
  unfoldable pub show_subgraph : String → Option ℕ → Handler P (Option (List (SemanticUnit P)))
  unfolding expand_levels
  show_subgraph id depth = do
    found ← stored (get_unit P id)
    root ← present found (unit_not_found id)
    (if is_public (effective_visibility root)
        then from_root id depth root
        else fail (unit_not_found id))

-- ===== src/Core/Graph.antt =====
-- packages/core/src/graph.rs: the in-memory graph and its breadth-first traversal.
pub mod Visit
pub mod Bfs
pub mod Subgraph
use symantic_weft.Prelude.{
  ℕ, zero, suc, Bool, true, false, Option, none, some, List, [], ◌∷◌, ◌++◌, String, ◌==◌, any,
  filter, length, if◌then◌else◌,
}
use symantic_weft.Prelude.Map.{Map, lookup, insert, values}
use symantic_weft.Platform.{Platform}
use symantic_weft.Core.Types.{SemanticUnit, Reference, UnitType, unit_type_eq}

pub record Graph (P : Platform) : Type 0 where
  pub units : Map (SemanticUnit P)

pub data Direction : Type 0 where
  outward inward : Direction

-- the members of a `HashSet<&str>`
abbrev pub contains : List String → String → Bool
contains l x = any (λ y. y == x) l

-- `references.iter().any(|r| r.id == id)`
abbrev pub refers_to : String → Option (List Reference) → Bool
refers_to id none = false
refers_to id (some refs) = any (λ (r : Reference). r.id == id) refs

module _ (P : Platform) where
  abbrev pub new : Graph P
  new = record { units = [] }

  -- `Graph::add`
  unfoldable pub add : Graph P → SemanticUnit P → Graph P
  add g unit = record { units = insert unit.id unit g.units }

  add_all : Graph P → List (SemanticUnit P) → Graph P
  add_all g [] = g
  add_all g (u ∷ us) = add_all (add g u) us

  unfoldable pub from_units : List (SemanticUnit P) → Graph P
  unfolding add_all
  from_units us = add_all new us

  -- `Graph::get`
  unfoldable pub get : Graph P → String → Option (SemanticUnit P)
  get g id = lookup id g.units

  unfoldable pub len : Graph P → ℕ
  len g = length g.units

  unfoldable pub by_type : Graph P → UnitType → List (SemanticUnit P)
  by_type g t = filter (λ u. unit_type_eq u.unit_type t) (values g.units)

  -- `ids.filter_map(|i| self.units.get(i))`
  unfoldable pub get_each : Graph P → List String → List (SemanticUnit P)
  get_each g [] = []
  get_each g (i ∷ is) =
      let rest = get_each g is in elim (lookup i g.units) [ none ↦ rest | some u ↦ u ∷ rest ]

  abbrev pub reference_ids : List Reference → List String
  reference_ids [] = []
  reference_ids (r ∷ rs) = r.id ∷ reference_ids rs

  unfoldable pub outgoing : Graph P → String → List (SemanticUnit P)
  unfolding get_each
  outgoing g id = elim (lookup id g.units) [
    | none ↦ []
    | some unit ↦ elim unit.references [ none ↦ [] | some refs ↦ get_each g (reference_ids refs) ]
  ]

  unfoldable pub incoming : Graph P → String → List (SemanticUnit P)
  incoming g id = filter (λ u. refers_to id u.references) (values g.units)

  unfoldable pub neighbours : Graph P → String → Direction → List (SemanticUnit P)
  neighbours g id outward = outgoing g id
  neighbours g id inward = incoming g id

  -- the variables of `bfs`
  pub record Search : Type 0 where
    pub visited : List String
    pub queue : List String
    pub result : List (SemanticUnit P)

  -- `if visited.insert(n.id) { queue.push_back(n.id); result.push(n); }`
  unfoldable pub visit : Search → SemanticUnit P → Search
  visit s n = if contains s.visited n.id then s else record {
    visited = n.id ∷ s.visited;
    queue = s.queue ++ (n.id ∷ []);
    result = s.result ++ (n ∷ []);
  }

  -- `for neighbour in … { … }`
  unfoldable pub visit_all : Search → List (SemanticUnit P) → Search
  visit_all s [] = s
  visit_all s (n ∷ ns) = visit_all (visit s n) ns

  -- `while let Some(current) = queue.pop_front() { … }`; `none` means that the fuel ran out
  unfoldable pub bfs_loop : Graph P → Direction → ℕ → Search → Option (List (SemanticUnit P))
  bfs_loop g d zero s = none
  bfs_loop g d (suc fuel) s = elim s.queue [
    | [] ↦ some s.result
    | current ∷ rest ↦
        bfs_loop g d fuel (visit_all (record s { queue = rest }) (neighbours g current d))
  ]

  abbrev pub seeded : String → Search
  seeded start = record { visited = start ∷ []; queue = []; result = [] }

  unfoldable pub bfs : Graph P → String → Direction → Option (List (SemanticUnit P))
  bfs g start d =
      bfs_loop g d (suc (length g.units)) (visit_all (seeded start) (neighbours g start d))

  unfoldable pub ancestors : Graph P → String → Option (List (SemanticUnit P))
  ancestors g id = bfs g id outward

  unfoldable pub descendants : Graph P → String → Option (List (SemanticUnit P))
  descendants g id = bfs g id inward

  -- `seen.insert(&u.id)`
  abbrev pub insert_id : List String → SemanticUnit P → List String
  insert_id seen u = if contains seen u.id then seen else (u.id ∷ seen)

  -- `for u in us { seen.insert(&u.id); }`
  unfoldable pub insert_ids : List String → List (SemanticUnit P) → List String
  insert_ids seen [] = seen
  insert_ids seen (u ∷ us) = insert_ids (insert_id seen u) us

  unfoldable pub subgraph : Graph P → String → Option (Graph P)
  subgraph g id = elim (ancestors g id) [
    | none ↦ none
    | some up ↦ elim (descendants g id) [
      | none ↦ none
      | some down ↦ some (from_units (get_each g (insert_ids (insert_ids (id ∷ []) up) down)))
    ]
  ]

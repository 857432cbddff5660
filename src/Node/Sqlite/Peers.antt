-- ===== src/Node/Sqlite/Peers.antt =====
-- The peer methods of packages/node/src/storage/sqlite.rs.
use symantic_weft.Prelude.{
  Bool, true, false, none, some, List, [], ◌∷◌, String, str_compare, Ordering, if◌then◌else◌,
}
use symantic_weft.Prelude.Action.{pure, fail, ◌>>=◌}
use symantic_weft.Prelude.Map.{Map, lookup, insert, remove, values}
use symantic_weft.Platform.{Platform, clamp_unit}
use symantic_weft.NodeApi.{PeerInfo}
use symantic_weft.Node.Storage.{not_found, ReputationStats}
use symantic_weft.Node.Sqlite.{Engine, PeerRow, Tables, Sql, query, execute, statement}
use symantic_weft.Node.Sqlite.Agents.{column_stats}

module _ (P : Platform) where
  -- the row of a new peer, whatever reputation it is given
  abbrev pub new_row : PeerInfo P → PeerRow P
  new_row peer = record {
    api_base = peer.api_base;
    reputation = P.f64.literal 1 2;
    last_seen = peer.last_seen;
  }

  -- `INSERT INTO peers … ON CONFLICT(node_id) DO UPDATE SET api_base, last_seen`
  unfoldable pub upsert_peer : PeerInfo P → Tables P → Tables P
  upsert_peer peer t = elim (lookup peer.node_id t.peers) [
    | none ↦ record t { peers = insert peer.node_id (new_row peer) t.peers }
    | some row ↦ record t {
      peers =
          insert peer.node_id (record row { api_base = peer.api_base; last_seen = peer.last_seen })
            t.peers;
    }
  ]

  unfoldable pub add_peer : PeerInfo P → Sql P (Unit {0})
  add_peer peer = execute (upsert_peer peer)

  unfoldable pub remove_peer : String → Sql P (Unit {0})
  remove_peer node_id = execute (λ t. record t { peers = remove node_id t.peers })

  -- `UPDATE peers SET reputation = ?1 WHERE node_id = ?2`, and whether a row was changed
  unfoldable pub set_peer_reputation : String → P.f64.Carrier → Tables P → Bool × Tables P
  set_peer_reputation node_id reputation t = elim (lookup node_id t.peers) [
    | none ↦ (false, t)
    | some row ↦
        (true, record t { peers = insert node_id (record row { reputation = reputation }) t.peers })
  ]

  unfoldable pub update_peer_reputation : String → P.f32.Carrier → Sql P (Unit {0})
  update_peer_reputation node_id reputation = do
    changed ← statement (set_peer_reputation node_id (P.widen (clamp_unit P.f32 reputation)))
    (if changed then pure tt else fail not_found)

  -- `ORDER BY reputation DESC, node_id ASC`
  abbrev pub comes_before : String × PeerRow P → String × PeerRow P → Bool
  comes_before (i, a) (j, b) =
      if P.f64.lt b.reputation a.reputation
      then true
      else if P.f64.lt a.reputation b.reputation
      then false
      else elim (str_compare i j) [ Ordering.lt ↦ true | _ ↦ false ]

  unfoldable pub insert_row : String × PeerRow P → Map (PeerRow P) → Map (PeerRow P)
  insert_row a [] = a ∷ []
  insert_row a (b ∷ rest) =
      let later = insert_row a rest in if comes_before b a then b ∷ later else a ∷ b ∷ rest

  unfoldable pub order_peers : Map (PeerRow P) → Map (PeerRow P)
  order_peers [] = []
  order_peers (a ∷ rest) = insert_row a (order_peers rest)

  abbrev pub row_peer : String × PeerRow P → PeerInfo P
  row_peer (node_id, row) = record {
    node_id = node_id;
    api_base = row.api_base;
    reputation = P.narrow row.reputation;
    last_seen = row.last_seen;
  }

  abbrev pub row_peers : Map (PeerRow P) → List (PeerInfo P)
  row_peers [] = []
  row_peers (e ∷ m) = row_peer e ∷ row_peers m

  unfoldable pub list_peers : Sql P (List (PeerInfo P))
  list_peers = query (λ t. row_peers (order_peers t.peers))

  abbrev pub peer_column : List (PeerRow P) → List P.f64.Carrier
  peer_column [] = []
  peer_column (p ∷ rest) = p.reputation ∷ peer_column rest

  unfoldable pub peer_reputation_stats : Engine P → Sql P (ReputationStats P)
  peer_reputation_stats E = query (λ t. column_stats P E (peer_column (values t.peers)))

-- ===== src/Node/Memory/Peers.antt =====
-- The peer methods of `MemoryStorage` (packages/node/src/storage/memory.rs).
pub mod Laws
use symantic_weft.Prelude.{
  Bool, true, false, Option, none, some, List, [], ◌∷◌, String, str_compare, Ordering,
  if◌then◌else◌, ok, err,
}
use symantic_weft.Prelude.Map.{Map, lookup, insert, remove, values}
use symantic_weft.Platform.{Platform, clamp_unit}
use symantic_weft.NodeApi.{PeerInfo}
use symantic_weft.Node.Storage.{not_found, ReputationStats}
use symantic_weft.Node.Memory.{Inner, Store}
use symantic_weft.Node.Memory.Agents.{reputation_stats}

module _ (P : Platform) where
  unfoldable pub add_peer : PeerInfo P → Store P (Unit {0})
  add_peer peer s = elim (lookup peer.node_id s.peers) [
    | none ↦ (ok tt, record s { peers = insert peer.node_id peer s.peers })
    | some existing ↦ (
      ok tt,
      record s {
        peers =
            insert peer.node_id
              (record existing { api_base = peer.api_base; last_seen = peer.last_seen }) s.peers;
      },
    )
  ]

  unfoldable pub remove_peer : String → Store P (Unit {0})
  remove_peer node_id s = (ok tt, record s { peers = remove node_id s.peers })

  unfoldable pub update_peer_reputation : String → P.f32.Carrier → Store P (Unit {0})
  update_peer_reputation node_id reputation s = elim (lookup node_id s.peers) [
    | none ↦ (err not_found, s)
    | some p ↦ (
      ok tt,
      record s {
        peers = insert node_id (record p { reputation = clamp_unit P.f32 reputation }) s.peers;
      },
    )
  ]

  -- The comparison of `sort_by`: the higher reputation first, then the smaller `node_id`;
  -- reputations that do not compare count as equal.
  unfoldable pub peer_compare : PeerInfo P → PeerInfo P → Ordering
  peer_compare a b =
      if P.f32.lt b.reputation a.reputation
      then Ordering.lt
      else if P.f32.lt a.reputation b.reputation
      then Ordering.gt
      else str_compare a.node_id b.node_id

  -- A stable sort: `a` goes in front of the first peer that does not come before it.
  unfoldable pub insert_peer : PeerInfo P → List (PeerInfo P) → List (PeerInfo P)
  insert_peer a [] = a ∷ []
  insert_peer a (b ∷ rest) =
      let later = insert_peer a rest in
      elim (peer_compare b a) [ Ordering.lt ↦ b ∷ later | _ ↦ a ∷ b ∷ rest ]

  unfoldable pub sort_peers : List (PeerInfo P) → List (PeerInfo P)
  unfolding insert_peer
  sort_peers [] = []
  sort_peers (a ∷ rest) = insert_peer a (sort_peers rest)

  unfoldable pub list_peers : Store P (List (PeerInfo P))
  list_peers s = (ok (sort_peers (values s.peers)), s)

  abbrev pub peer_reputations : List (PeerInfo P) → List P.f32.Carrier
  peer_reputations [] = []
  peer_reputations (p ∷ rest) = p.reputation ∷ peer_reputations rest

  unfoldable pub peer_reputation_stats : Store P (ReputationStats P)
  peer_reputation_stats s = (ok (reputation_stats P (peer_reputations (values s.peers))), s)

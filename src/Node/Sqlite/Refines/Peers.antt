-- ===== src/Node/Sqlite/Refines/Peers.antt =====
-- The peer methods of packages/node/src/storage/sqlite.rs against those of memory.rs.
use symantic_weft.Prelude.{
  Option, none, some, [], ◌∷◌, String, ◌==◌, ◌≡◌, refl, ap, ◌∙◌, sym, inl, inr, ◌⊎◌, Bool-cases,
  Option-cases, ok, err, arith, eq_iff,
}
use symantic_weft.Prelude.Map.{Map, lookup, insert, remove}
use symantic_weft.Platform.{Platform, clamp_unit}
use symantic_weft.NodeApi.{PeerInfo}
use symantic_weft.Node.Storage.{not_found}
use symantic_weft.Node.Memory.{Inner}
use symantic_weft.Node.Memory.Peers as Peers
use symantic_weft.Node.Sqlite.{Engine, PeerRow, Tables}
use symantic_weft.Node.Sqlite.Peers.{
  row_peer, new_row, add_peer, upsert_peer, remove_peer, update_peer_reputation,
  set_peer_reputation,
}
use symantic_weft.Node.Sqlite.Refines.Agree.{quiet, peer_infos, Agree, Simulates, simulated}

module _ {P : Platform} where
  peer_in : String → Option (PeerRow P) → Option (PeerInfo P)
  peer_in id none = none
  peer_in id (some row) = some (row_peer P (id, row))

  peer_infos-lookup :
      (id : String) (m : Map (PeerRow P)) → lookup id (peer_infos m) ≡ peer_in id (lookup id m)
  unfolding lookup peer_in
  peer_infos-lookup id [] = refl
  peer_infos-lookup id ((k, row) ∷ m) = elim (Bool-cases (k == id)) [
    | inl b ↦ rw b (ap (λ d. some (row_peer P (d, row))) ((eq_iff k id).0 b))
    | inr b ↦ rw b (peer_infos-lookup id m)
  ]

  peers-cases :
      (id : String) (t : Tables P) (s : Inner P)
      → peer_infos t.peers ≡ s.peers
      → ((lookup id t.peers ≡ none) × (lookup id s.peers ≡ none))
        ⊎ ((row : PeerRow P) × (lookup id t.peers ≡ some row)
            × (lookup id s.peers ≡ some (row_peer P (id, row))))
  unfolding peer_in
  peers-cases id t s e =
      let found : lookup id s.peers ≡ peer_in id (lookup id t.peers) =
        ap (lookup id) (sym e) ∙ peer_infos-lookup id t.peers in
      elim (Option-cases (lookup id t.peers)) [
        | inl h ↦ inl (h, found ∙ ap (peer_in id) h)
        | inr (row, h) ↦ inr (row, h, found ∙ ap (peer_in id) h)
      ]

  peer_infos-insert :
      (id : String) (row : PeerRow P) (m : Map (PeerRow P))
      → peer_infos (insert id row m) ≡ insert id (row_peer P (id, row)) (peer_infos m)
  unfolding insert
  peer_infos-insert id row [] = refl
  peer_infos-insert id row ((k, old) ∷ m) = ground (arith, peer_infos-insert id row m)

  upsert_peer-new :
      (p : PeerInfo P) (t : Tables P)
      → lookup p.node_id t.peers ≡ none
      → upsert_peer P p t ≡ record t { peers = insert p.node_id (new_row P p) t.peers }
  unfolding upsert_peer
  upsert_peer-new p t h = rw (h, upsert_peer) refl

  upsert_peer-known :
      (p : PeerInfo P) (row : PeerRow P) (t : Tables P)
      → lookup p.node_id t.peers ≡ some row
      → upsert_peer P p t ≡ record t {
        peers =
            insert p.node_id
              (record row { api_base = p.api_base; last_seen = p.last_seen })
              t.peers;
      }
  unfolding upsert_peer
  upsert_peer-known p row t h = rw (h, upsert_peer) refl

  memory_add-new :
      (p : PeerInfo P) (s : Inner P)
      → lookup p.node_id s.peers ≡ none
      → Peers.add_peer P p s ≡ (ok tt, record s { peers = insert p.node_id p s.peers })
  unfolding Peers.add_peer
  memory_add-new p s h = rw (h, Peers.add_peer) refl

  memory_add-known :
      (p old : PeerInfo P) (s : Inner P)
      → lookup p.node_id s.peers ≡ some old
      → Peers.add_peer P p s ≡ (
        ok tt,
        record s {
          peers =
              insert p.node_id
                (record old { api_base = p.api_base; last_seen = p.last_seen })
                s.peers;
        },
      )
  unfolding Peers.add_peer
  memory_add-known p old s h = rw (h, Peers.add_peer) refl

  sql_update-none :
      (id : String) (x : P.f32.Carrier) (t : Tables P)
      → lookup id t.peers ≡ none
      → update_peer_reputation P id x (quiet t) ≡ (err not_found, quiet t)
  unfolding update_peer_reputation set_peer_reputation
  sql_update-none id x t h = rw (h, update_peer_reputation, set_peer_reputation) refl

  sql_update-some :
      (id : String) (x : P.f32.Carrier) (row : PeerRow P) (t : Tables P)
      → lookup id t.peers ≡ some row
      → update_peer_reputation P id x (quiet t) ≡ (
        ok tt,
        quiet (record t {
          peers = insert id (record row { reputation = P.widen (clamp_unit P.f32 x) }) t.peers;
        }),
      )
  unfolding update_peer_reputation set_peer_reputation
  sql_update-some id x row t h = rw (h, update_peer_reputation, set_peer_reputation) refl

  memory_update-none :
      (id : String) (x : P.f32.Carrier) (s : Inner P)
      → lookup id s.peers ≡ none
      → Peers.update_peer_reputation P id x s ≡ (err not_found, s)
  unfolding Peers.update_peer_reputation
  memory_update-none id x s h = rw (h, Peers.update_peer_reputation) refl

  memory_update-some :
      (id : String) (x : P.f32.Carrier) (p : PeerInfo P) (s : Inner P)
      → lookup id s.peers ≡ some p
      → Peers.update_peer_reputation P id x s ≡ (
        ok tt,
        record s { peers = insert id (record p { reputation = clamp_unit P.f32 x }) s.peers },
      )
  unfolding Peers.update_peer_reputation
  memory_update-some id x p s h = rw (h, Peers.update_peer_reputation) refl

module _ {P : Platform} (E : Engine P) where
  Agree-peers :
      (rows : Map (PeerRow P)) (peers : Map (PeerInfo P)) (t : Tables P) (s : Inner P)
      → peer_infos rows ≡ peers
      → Agree E t s
      → Agree E (record t { peers = rows }) (record s { peers = peers })
  Agree-peers rows peers t s e a = record {
    units = a.units;
    agents = a.agents;
    counts = a.counts;
    follows = a.follows;
    peers = e;
    cursors = a.cursors;
    node_config = a.node_config;
  }

  peer_infos-remove :
      (id : String) (m : Map (PeerRow P)) → peer_infos (remove id m) ≡ remove id (peer_infos m)
  unfolding remove
  peer_infos-remove id [] = refl
  peer_infos-remove id ((k, row) ∷ m) = ground (arith, peer_infos-remove id m)

  pub remove_peer_refines :
      (id : String) (t : Tables P) (s : Inner P)
      → Agree E t s
      → Simulates E (remove_peer P id (quiet t)) (Peers.remove_peer P id s)
  unfolding remove_peer Peers.remove_peer
  remove_peer_refines id t s a =
      simulated E (ok tt) _ _ refl refl
        (Agree-peers _ _ t s (peer_infos-remove id t.peers ∙ ap (remove id) a.peers) a)

  pub update_peer_reputation_refines :
      ((x : P.f32.Carrier) → P.narrow (P.widen x) ≡ x)
      → (id : String) (x : P.f32.Carrier) (t : Tables P) (s : Inner P) → Agree E t s
      → Simulates E
          (update_peer_reputation P id x (quiet t))
          (Peers.update_peer_reputation P id x s)
  update_peer_reputation_refines exact id x t s a = elim (peers-cases id t s a.peers) [
    | inl (i, j) ↦
        simulated E (err not_found) t s (sql_update-none id x t i) (memory_update-none id x s j) a
    | inr (row, i, j) ↦
        simulated E (ok tt) _ _ (sql_update-some id x row t i) (memory_update-some id x _ s j) (
          Agree-peers _ _ t s
            (peer_infos-insert id _ t.peers ∙ (λ k.
              insert id
                (record (row_peer P (id, row)) { reputation = exact (clamp_unit P.f32 x) k })
                (a.peers k)))
            a)
  ]

  -- A new peer is given the reputation 0.5 in the table, so it has to come with it.
  pub add_peer_refines :
      (p : PeerInfo P) (t : Tables P) (s : Inner P)
      → P.narrow (P.f64.literal 1 2) ≡ p.reputation
      → Agree E t s
      → Simulates E (add_peer P p (quiet t)) (Peers.add_peer P p s)
  unfolding add_peer
  add_peer_refines p t s half a = elim (peers-cases p.node_id t s a.peers) [
    | inl (i, j) ↦
        simulated E (ok tt) _ _ (ap (λ u. (ok tt, quiet u)) (upsert_peer-new p t i))
          (memory_add-new p s j)
          (Agree-peers _ _ t s
            (peer_infos-insert p.node_id (new_row P p) t.peers
              ∙ (λ k. insert p.node_id (record p { reputation = half k }) (a.peers k)))
            a)
    | inr (row, i, j) ↦
        simulated E (ok tt) _ _ (ap (λ u. (ok tt, quiet u)) (upsert_peer-known p row t i))
          (memory_add-known p _ s j)
          (Agree-peers _ _ t s
            (peer_infos-insert p.node_id _ t.peers
              ∙ ap
                  (insert p.node_id (record (row_peer P (p.node_id, row)) {
                    api_base = p.api_base;
                    last_seen = p.last_seen;
                  }))
                  a.peers)
            a)
  ]

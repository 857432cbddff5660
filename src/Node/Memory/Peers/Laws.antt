-- ===== src/Node/Memory/Peers/Laws.antt =====
-- The peer list of `MemoryStorage` (packages/node/src/storage/memory.rs): the order of `list_peers`, and the keys.
use symantic_weft.Prelude.{
  ◌+◌, ◌≤◌, ◌<◌, true, none, some, List, [], ◌∷◌, String, ◌≡◌, ◌≢◌, ◌⊎◌, refl, sym, ◌∙◌, subst, inl,
  inr, ok, arith, is_some, Option-cases, eq_iff, Among, All, All-among, length, last?,
}
use symantic_weft.Prelude.Map.{
  Map, lookup, remove, values, lookup-Among, length-insert-le, length-remove-lt, lookup-insert,
  lookup-remove,
}
use symantic_weft.Prelude.Map.Distinct.{insert-All, Among-of_values}
use symantic_weft.Platform.{Platform}
use symantic_weft.NodeApi.{PeerInfo}
use symantic_weft.Node.Memory.{Inner}
use symantic_weft.Node.Memory.Peers.{add_peer, remove_peer, insert_peer, sort_peers}

last?-Among : {A : Type 0} (x : A) (l : List A) → last? l ≡ some x → Among x l
last?-Among x [] h = cc
last?-Among x (y ∷ []) h = ground arith
last?-Among x (y ∷ z ∷ l) h = inr (last?-Among x (z ∷ l) h)

module _ {P : Platform} where
  -- Every peer stands under its own id.
  abbrev pub IsKeyed : Map (PeerInfo P) → Type 0
  IsKeyed m = All (λ (e : String × PeerInfo P). e.1.node_id ≡ e.0) m

  length-insert_peer :
      (a : PeerInfo P) (l : List (PeerInfo P)) → length (insert_peer P a l) ≡ length l + 1
  unfolding insert_peer
  length-insert_peer a [] = refl
  length-insert_peer a (b ∷ l) = ground (arith, length-insert_peer a l)

  Among-insert_peer :
      (x a : PeerInfo P) (l : List (PeerInfo P)) → Among x (insert_peer P a l) → (x ≡ a) ⊎ Among x l
  unfolding insert_peer
  Among-insert_peer x a [] h = h
  Among-insert_peer x a (b ∷ l) h = ground (arith, Among-insert_peer x a l)

  pub length-sort_peers : (l : List (PeerInfo P)) → length (sort_peers P l) ≡ length l
  unfolding sort_peers
  length-sort_peers [] = refl
  length-sort_peers (a ∷ l) =
      omega (arith, length-insert_peer a (sort_peers P l), length-sort_peers l)

  Among-sort_peers : (x : PeerInfo P) (l : List (PeerInfo P)) → Among x (sort_peers P l) → Among x l
  unfolding sort_peers
  Among-sort_peers x [] h = h
  Among-sort_peers x (a ∷ l) h = elim (Among-insert_peer x a (sort_peers P l) h) [
    | inl e ↦ inl e
    | inr m ↦ inr (Among-sort_peers x l m)
  ]

  lookup_of_Among_some :
      (k : String) (p : PeerInfo P) (n : Map (PeerInfo P))
      → Among (k, p) n
      → is_some (lookup k n) ≡ true
  unfolding lookup
  lookup_of_Among_some k p [] b = absurd b
  lookup_of_Among_some k p ((j, q) ∷ n) b = ground (arith, eq_iff j k, lookup_of_Among_some k p n)

  -- The last of the sorted peers is in the map, under its id.
  pub last-known :
      (worst : PeerInfo P) (m : Map (PeerInfo P))
      → IsKeyed m
      → last? (sort_peers P (values m)) ≡ some worst
      → is_some (lookup worst.node_id m) ≡ true
  last-known worst m keyed h =
      let (k, a) =
        Among-of_values worst m (Among-sort_peers worst (values m) (last?-Among worst _ h)) in
      subst (λ x. is_some (lookup x m) ≡ true) (sym (All-among _ (k, worst) m keyed a))
        (lookup_of_Among_some k worst m a)

  -- `add_peer` keeps the keys, adds at most one, and touches no other id.
  pub add_peer-peers :
      (peer : PeerInfo P) (s : Inner P)
      → IsKeyed s.peers
      → ((add_peer P peer s).0 ≡ ok tt)
        × IsKeyed (add_peer P peer s).1.peers
        × (length (add_peer P peer s).1.peers ≤ length s.peers + 1)
        × ((id : String)
            → peer.node_id ≢ id
            → lookup id (add_peer P peer s).1.peers ≡ lookup id s.peers)
  unfolding add_peer
  add_peer-peers peer s keyed = elim (Option-cases (lookup peer.node_id s.peers)) [
    | inl e ↦
        rw (e, add_peer)
          (
            refl,
            insert-All _ peer.node_id peer s.peers refl keyed,
            length-insert-le peer.node_id peer s.peers,
            λ id h.
                lookup-insert peer.node_id id peer s.peers ∙ grind (arith, eq_iff peer.node_id id),
          )
    | inr (old, e) ↦
        let merged = record old { api_base = peer.api_base; last_seen = peer.last_seen } in
        let same : old.node_id ≡ peer.node_id =
          All-among _ (peer.node_id, old) s.peers keyed (lookup-Among peer.node_id old s.peers e) in
        rw (e, add_peer)
          (
            refl,
            insert-All _ peer.node_id merged s.peers same keyed,
            length-insert-le peer.node_id merged s.peers,
            λ id h.
                lookup-insert peer.node_id id merged s.peers
                ∙ grind (arith, eq_iff peer.node_id id),
          )
  ]

  remove-IsKeyed : (k : String) (m : Map (PeerInfo P)) → IsKeyed m → IsKeyed (remove k m)
  unfolding remove
  remove-IsKeyed k [] h = tt
  remove-IsKeyed k ((j, p) ∷ m) h = ground (arith, remove-IsKeyed k m)

  pub remove_peer-peers :
      (id : String) (s : Inner P)
      → IsKeyed s.peers
      → is_some (lookup id s.peers) ≡ true
      → IsKeyed (remove_peer P id s).1.peers
        × (length (remove_peer P id s).1.peers < length s.peers)
        × ((j : String) → lookup j s.peers ≡ none → lookup j (remove_peer P id s).1.peers ≡ none)
  unfolding remove_peer
  remove_peer-peers id s keyed known = (
    remove-IsKeyed id s.peers keyed,
    length-remove-lt id s.peers known,
    λ j h. lookup-remove id j s.peers ∙ grind (arith, h),
  )

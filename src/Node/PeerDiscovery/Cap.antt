-- ===== src/Node/PeerDiscovery/Cap.antt =====
-- The cap on the number of peers, through a sweep of packages/node/src/peer_discovery.rs.
use symantic_weft.Prelude.{
  ℕ, ◌≤◌, ◌<◌, true, none, some, List, [], ◌∷◌, String, ◌==◌, ◌≡◌, ◌≢◌, refl, sym, ap, ◌∙◌, ◌⊎◌,
  inl, inr, subst, err, ok, arith, Bool-cases, Option-cases, eq_iff, length, last?, leb, concat,
  is_some,
}
use symantic_weft.Prelude.Map.{Map, lookup, remove, values, length-values}
use symantic_weft.Platform.{Platform}
use symantic_weft.NodeApi.{PeerInfo}
use symantic_weft.Node.Memory.{Inner, empty}
use symantic_weft.Node.Memory.Instance.{memory}
use symantic_weft.Node.Storage.{StorageError}
use symantic_weft.Node.Storage.Interface.{Storage}
use symantic_weft.Node.Memory.Peers.{add_peer, remove_peer, list_peers, sort_peers}
use symantic_weft.Node.Memory.Peers.Laws.{
  IsKeyed, length-sort_peers, last-known, add_peer-peers, remove_peer-peers,
}
use symantic_weft.Node.PeerDiscovery.{
  Network, Reply, store_peer, consider_all, evict_for, failed, replied, is_success, VerifyResult,
  verified, mismatch, unreachable, verify_peer, admit_peer, try_add_peer, consider, take_list,
  admit_unless_mismatch, pull_peer_list, bootstrap,
}

length_of_last?-none : {A : Type 0} (l : List A) → last? l ≡ none → length l ≡ 0
length_of_last?-none [] h = refl
length_of_last?-none (x ∷ []) h = cc
length_of_last?-none (x ∷ y ∷ l) h = absurd (omega (arith, length_of_last?-none (y ∷ l) h))

leb-le : (a b : ℕ) → leb a b ≡ true → a ≤ b
leb-le a b h = ground arith

module _ {P : Platform} where
  -- What `add_peer` makes of the peers: a new one enters, a known one is updated.
  abbrev pub with_peer : PeerInfo P → Map (PeerInfo P) → Map (PeerInfo P)
  with_peer peer m = (add_peer P peer (record (empty P) { peers = m })).1.peers

  -- The peers of a storage whose list can be read, while each write may fail and then changes none
  pub record IsPeerStore (S : Storage P) : Type 0 where
    pub view : S.State → Map (PeerInfo P)
    pub lists : (s : S.State) → (S.list_peers s).0 ≡ ok (sort_peers P (values (view s)))
    pub reads : (s : S.State) → view (S.list_peers s).1 ≡ view s
    pub removes :
        (id : String) (s : S.State)
        → (((S.remove_peer id s).0 ≡ ok tt) × (view (S.remove_peer id s).1 ≡ remove id (view s)))
          ⊎ ((e : StorageError) × ((S.remove_peer id s).0 ≡ err e)
              × (view (S.remove_peer id s).1 ≡ view s))
    pub adds :
        (peer : PeerInfo P) (s : S.State)
        → (view (S.add_peer peer s).1 ≡ with_peer peer (view s))
          ⊎ (view (S.add_peer peer s).1 ≡ view s)

  pub memory-adds :
      (peer : PeerInfo P) (s : Inner P) → (add_peer P peer s).1.peers ≡ with_peer peer s.peers
  unfolding add_peer
  memory-adds peer s = ground arith

  pub memory-lists :
      (s : Inner P)
      → ((list_peers P s).0 ≡ ok (sort_peers P (values s.peers))) × ((list_peers P s).1 ≡ s)
  unfolding list_peers
  memory-lists s = (refl, refl)

  pub memory-removes :
      (id : String) (s : Inner P)
      → ((remove_peer P id s).0 ≡ ok tt) × ((remove_peer P id s).1.peers ≡ remove id s.peers)
  unfolding remove_peer
  memory-removes id s = (refl, refl)

  -- The in-memory storage is such a storage, and its writes succeed.
  abbrev pub memory-IsPeerStore : IsPeerStore (memory P)
  memory-IsPeerStore = record {
    view = λ s. s.peers;
    lists = λ s. (memory-lists s).0;
    reads = λ s. ap (λ (t : Inner P). t.peers) (memory-lists s).1;
    removes = λ id s. inl (memory-removes id s);
    adds = λ peer s. inl (memory-adds peer s);
  }

  -- The peers stand under their ids, at most `most` of them, and the node itself is not among them.
  pub record IsCapped (most : ℕ) (own_id : String) (m : Map (PeerInfo P)) : Type 0 where
    pub keyed : IsKeyed m
    pub few : length m ≤ most
    pub no_self : lookup own_id m ≡ none

  with_peer-IsCapped :
      (most : ℕ) (own_id : String) (peer : PeerInfo P) (m : Map (PeerInfo P))
      → peer.node_id ≢ own_id
      → IsKeyed m
      → length m < most
      → lookup own_id m ≡ none
      → IsCapped most own_id (with_peer peer m)
  with_peer-IsCapped most own_id peer m other keyed room no_self =
      let (done, kept, more, rest) = add_peer-peers peer (record (empty P) { peers = m }) keyed in
      record {
        keyed = kept;
        few = omega (arith, more, room);
        no_self = rest own_id other ∙ no_self;
      }

module _ {P : Platform} (S : Storage P) (L : IsPeerStore S) (most : ℕ) (own_id : String) where
  -- the cap in a state of the storage
  abbrev CappedAt : S.State → Type 0
  CappedAt s = IsCapped most own_id (L.view s)

  abbrev KeepsCap : (S.State → S.State) → Type 0
  KeepsCap f = (s : S.State) → CappedAt s → CappedAt (f s)

  store_peer-CappedAt :
      (peer : PeerInfo P) (s : S.State)
      → peer.node_id ≢ own_id
      → IsKeyed (L.view s)
      → length (L.view s) < most
      → lookup own_id (L.view s) ≡ none
      → CappedAt (store_peer P S peer s)
  store_peer-CappedAt peer s other keyed room no_self = elim (L.adds peer s) [
    | inl e ↦
        subst (IsCapped most own_id) (sym e)
          (with_peer-IsCapped most own_id peer (L.view s) other keyed room no_self)
    | inr e ↦
        subst (IsCapped most own_id) (sym e)
          (record { keyed = keyed; few = omega (arith, room); no_self = no_self })
  ]

  evict_for-CappedAt :
      (peer worst : PeerInfo P) (s : S.State)
      → peer.node_id ≢ own_id
      → is_some (lookup worst.node_id (L.view s)) ≡ true
      → CappedAt s
      → CappedAt (evict_for P S peer (some worst) s)
  unfolding remove_peer
  evict_for-CappedAt peer worst s other known h =
      elim (Bool-cases (P.f32.lt worst.reputation peer.reputation)) [
        | inr g ↦ rw g h
        | inl g ↦ elim (L.removes worst.node_id s) [
          | inr (e, refused, same) ↦ rw (g, refused) (subst (IsCapped most own_id) (sym same) h)
          | inl (done, less) ↦
              let (kept, fewer, absent) =
                remove_peer-peers worst.node_id (record (empty P) { peers = L.view s }) h.keyed
                  known in
              rw (g, done)
                (store_peer-CappedAt peer (S.remove_peer worst.node_id s).1 other
                  (subst IsKeyed (sym less) kept)
                  (subst (λ m. length m < most) (sym less) (omega (arith, fewer, h.few)))
                  (subst (λ m. lookup own_id m ≡ none) (sym less) (absent own_id h.no_self)))
        ]
      ]

  admit_peer-KeepsCap :
      (peer : PeerInfo P) → 0 < most → peer.node_id ≢ own_id → KeepsCap (admit_peer P S most peer)
  unfolding admit_peer
  admit_peer-KeepsCap peer pos other s h =
      let sorted = sort_peers P (values (L.view s)) in
      let t = (S.list_peers s).1 in
      let count : length sorted ≡ length (L.view s) =
        length-sort_peers (values (L.view s)) ∙ length-values (L.view s) in
      let capped : CappedAt t = subst (IsCapped most own_id) (sym (L.reads s)) h in
      elim (Bool-cases (leb most (length sorted))) [
        | inr e ↦
            rw (L.lists s, e, admit_peer)
              (store_peer-CappedAt peer t other capped.keyed
                (subst (λ m. length m < most) (sym (L.reads s)) (grind (arith, count)))
                capped.no_self)
        | inl e ↦ elim (Option-cases (last? sorted)) [
          | inl f ↦
              absurd (omega (arith, length_of_last?-none sorted f, leb-le most (length sorted) e))
          | inr (worst, f) ↦
              rw (L.lists s, e, f, admit_peer)
                (evict_for-CappedAt peer worst t other
                  (subst (λ m. is_some (lookup worst.node_id m) ≡ true) (sym (L.reads s))
                    (last-known worst (L.view s) h.keyed f))
                  capped)
        ]
      ]

  consider-KeepsCap :
      (net : Network P) (peer : PeerInfo P)
      → 0 < most
      → KeepsCap (consider P S net most own_id peer)
  unfolding consider try_add_peer
  consider-KeepsCap net peer pos s h = elim (Bool-cases (peer.node_id == own_id)) [
    | inl e ↦ rw e h
    | inr e ↦ rw e (
        judged
          (admit_peer-KeepsCap peer pos (λ same. cc (sym e ∙ (eq_iff peer.node_id own_id).1 same)) s
            h)
          (verify_peer P net peer))
  ]
    where
      judged :
          CappedAt (admit_peer P S most peer s)
          → (v : VerifyResult) → CappedAt (admit_unless_mismatch P S v most peer s)
      judged admitted verified = admitted
      judged admitted mismatch = h
      judged admitted unreachable = admitted

  consider_all-KeepsCap :
      (net : Network P) (peers : List (PeerInfo P))
      → 0 < most
      → KeepsCap (consider_all P S net most own_id peers)
  unfolding consider_all
  consider_all-KeepsCap net [] pos s h = h
  consider_all-KeepsCap net (p ∷ peers) pos s h =
      consider_all-KeepsCap net peers pos _ (consider-KeepsCap net p pos s h)

  take_list-KeepsCap :
      (net : Network P) (r : Reply (List (PeerInfo P)))
      → 0 < most
      → KeepsCap (take_list P S net most own_id r)
  take_list-KeepsCap net failed pos s h = h
  take_list-KeepsCap net (replied code none) pos s h = h
  take_list-KeepsCap net (replied code (some peers)) pos s h = elim (Bool-cases (is_success code)) [
    | inl e ↦ rw e (consider_all-KeepsCap net peers pos s h)
    | inr e ↦ rw e h
  ]

  sweep-KeepsCap :
      (net : Network P) (urls : List String)
      → 0 < most
      → KeepsCap (bootstrap P S net most own_id urls)
  unfolding bootstrap pull_peer_list
  sweep-KeepsCap net [] pos s h = h
  sweep-KeepsCap net (url ∷ urls) pos s h = sweep-KeepsCap net urls pos _ (
      take_list-KeepsCap net (net.peer_list (concat (P.trim_end_matches "/" url) "/peers")) pos s h)

-- With a cap that is not zero, on a storage whose list of peers can be read, whatever the other nodes
-- answer and whichever writes fail: where the peers stood under their ids, within the cap and without
-- the node itself before a sweep over the bootstrap addresses, they do so after.
pub bootstrap-IsCapped :
    (P : Platform) (S : Storage P) (L : IsPeerStore S) (net : Network P) (most : ℕ)
    (own_id : String) (urls : List String) (s : S.State)
    → 0 < most
    → IsCapped most own_id (L.view s)
    → IsCapped most own_id (L.view (bootstrap P S net most own_id urls s))
bootstrap-IsCapped P S L net most own_id urls s pos h =
    sweep-KeepsCap S L most own_id net urls pos s h

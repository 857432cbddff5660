-- ===== src/Node/PeerDiscovery.antt =====
-- packages/node/src/peer_discovery.rs: the sweep over the peer lists of other nodes.
pub mod Cap
use symantic_weft.Prelude.{
  ℕ, Bool, true, false, Option, none, some, List, [], ◌∷◌, String, ◌==◌, leb, length, last?,
  if◌then◌else◌, Result, ok, err, concat,
}
use symantic_weft.Platform.{Platform}
use symantic_weft.NodeApi.{PeerInfo}
use symantic_weft.Node.Storage.{StorageError}
use symantic_weft.Node.Storage.Interface.{Storage}

pub data VerifyResult : Type 0 where
  verified mismatch unreachable : VerifyResult

-- What a GET comes to: no answer, a status, and the body where it parses
pub data Reply (A : Type 0) : Type 0 where
  failed : Reply A
  replied : ℕ → Option A → Reply A

-- `status.is_success()`
abbrev pub is_success : ℕ → Bool
is_success code = if leb 200 code then leb code 299 else false

-- What the sweep asks of other nodes, at an address: the `node_id` of the discovery document, and
-- the list of peers
pub record Network (P : Platform) : Type 0 where
  pub node_info : String → Reply String
  pub peer_list : String → Reply (List (PeerInfo P))

module _ (P : Platform) where
  abbrev pub judge_info : String → Reply String → VerifyResult
  judge_info node_id failed = unreachable
  judge_info node_id (replied code none) = unreachable
  judge_info node_id (replied code (some declared)) =
      if is_success code then if declared == node_id then verified else mismatch else unreachable

  unfoldable pub verify_peer : Network P → PeerInfo P → VerifyResult
  verify_peer net peer = judge_info peer.node_id (
      net.node_info (
        concat (P.trim_end_matches "/v1" (P.trim_end_matches "/" peer.api_base))
          "/.well-known/semanticweft"))

-- `.unwrap_or_default()`
abbrev pub or_default : {A : Type 0} → Result (List A) StorageError → List A
or_default (ok l) = l
or_default (err e) = []

-- Every failure of the storage is logged, so that a step of the sweep yields a state and no error.
module _ (P : Platform) (S : Storage P) where
  -- the last `match` of `try_add_peer`
  abbrev pub store_peer : PeerInfo P → S.State → S.State
  store_peer candidate s = (S.add_peer candidate s).1

  -- behind the eviction, which may have failed
  abbrev pub after_eviction : Result (Unit {0}) StorageError → PeerInfo P → S.State → S.State
  after_eviction (ok _) candidate s = store_peer candidate s
  after_eviction (err e) candidate s = s

  -- The part of `try_add_peer` behind the cap when the list is full
  abbrev pub evict_for : PeerInfo P → Option (PeerInfo P) → S.State → S.State
  evict_for candidate none s = store_peer candidate s
  evict_for candidate (some worst) s =
      if P.f32.lt worst.reputation candidate.reputation
      then (let removed = S.remove_peer worst.node_id s in
          after_eviction removed.0 candidate removed.1)
      else s

  unfoldable pub admit_peer : ℕ → PeerInfo P → S.State → S.State
  admit_peer max_peers candidate s =
      let found = S.list_peers s in
      let peers = or_default found.0 in
      if leb max_peers (length peers)
      then evict_for candidate (last? peers) found.1
      else store_peer candidate found.1

  abbrev pub admit_unless_mismatch : VerifyResult → ℕ → PeerInfo P → S.State → S.State
  admit_unless_mismatch verified max_peers candidate s = admit_peer max_peers candidate s
  admit_unless_mismatch mismatch max_peers candidate s = s
  admit_unless_mismatch unreachable max_peers candidate s = admit_peer max_peers candidate s

  unfoldable pub try_add_peer : Network P → ℕ → PeerInfo P → S.State → S.State
  unfolding admit_peer
  try_add_peer net max_peers candidate s =
      admit_unless_mismatch (verify_peer P net candidate) max_peers candidate s

  -- The body of the loop over a pulled list: never add ourselves
  unfoldable pub consider : Network P → ℕ → String → PeerInfo P → S.State → S.State
  unfolding try_add_peer
  consider net max_peers own_id peer s =
      if peer.node_id == own_id then s else try_add_peer net max_peers peer s

  unfoldable pub consider_all : Network P → ℕ → String → List (PeerInfo P) → S.State → S.State
  unfolding consider
  consider_all net max_peers own_id [] s = s
  consider_all net max_peers own_id (p ∷ peers) s =
      consider_all net max_peers own_id peers (consider net max_peers own_id p s)

  abbrev pub take_list : Network P → ℕ → String → Reply (List (PeerInfo P)) → S.State → S.State
  take_list net max_peers own_id failed s = s
  take_list net max_peers own_id (replied code none) s = s
  take_list net max_peers own_id (replied code (some peers)) s =
      if is_success code then consider_all net max_peers own_id peers s else s

  unfoldable pub pull_peer_list : Network P → ℕ → String → String → S.State → S.State
  pull_peer_list net max_peers own_id api_base s =
      take_list net max_peers own_id (net.peer_list (concat api_base "/peers")) s

  -- `bootstrap`; the announcement to the other node changes nothing here
  unfoldable pub bootstrap : Network P → ℕ → String → List String → S.State → S.State
  unfolding pull_peer_list
  bootstrap net max_peers own_id [] s = s
  bootstrap net max_peers own_id (url ∷ urls) s =
      bootstrap net max_peers own_id urls
        (pull_peer_list net max_peers own_id (P.trim_end_matches "/" url) s)

-- ===== src/Node/Handlers/Peers.antt =====
-- packages/node/src/handlers/peers.rs: the peer list and its reputations.
use symantic_weft.Prelude.{
  ℕ, Bool, false, ◌||◌, Option, none, some, List, String, ◌==◌, if◌then◌else◌, ok, err, concat,
  find,
}
use symantic_weft.Prelude.Action.{pure, modify, from_result, ignore, ◌>>=◌, ◌>>◌}
use symantic_weft.Platform.{Platform, clamp_unit}
use symantic_weft.NodeApi.{PeerInfo, ReputationUpdate}
use symantic_weft.Node.Memory.{Store}
use symantic_weft.Node.Memory.Peers.{
  add_peer, list_peers, update_peer_reputation, peer_reputation_stats,
}
use symantic_weft.Node.Error.{AppError}
use symantic_weft.Node.State.{
  NodeConfig, verify_reachability, Handler, stored, attempt, present, spawn,
}
use symantic_weft.Node.Handlers.Agents.{
  is_outside, voting_threshold, weighted, below_threshold, or_missing,
}

-- `reqwest::Url`, as far as the code reads it
pub record Url : Type 0 where
  pub scheme : String
  pub host : Option String
  pub port : Option ℕ

-- What a GET of a discovery document comes to: no answer, a status that is no success, or a
-- document, with its `node_id` where it has one
pub data Fetched : Type 0 where
  unreachable : Fetched
  bad_status : ℕ → Fetched
  document : Option String → Fetched

abbrev pub peer_not_found : String → AppError
peer_not_found node_id = AppError.not_found (concat "peer " (concat node_id " not found"))

module _ (P : Platform) where
  -- `peers.iter().find(|p| p.node_id == node_id)`
  abbrev pub find_peer : String → List (PeerInfo P) → Option (PeerInfo P)
  find_peer node_id peers = find (λ p. p.node_id == node_id) peers

  -- the handler `list`
  unfoldable pub show_peers : Handler P (List (PeerInfo P))
  show_peers = stored (list_peers P)

  -- the handler `add`
  unfoldable pub announce_peer : PeerInfo P → Handler P (ℕ × PeerInfo P)
  announce_peer peer = do
    from_result (
        if (peer.node_id == "") || (peer.api_base == "")
        then err (AppError.bad_request "node_id and api_base are required")
        else ok tt)
    stored (add_peer P peer)
    modify (spawn (verify_reachability peer.node_id peer.api_base))
    pure (200, peer)

  -- `….map(|p| p.reputation).unwrap_or(0.5)`
  abbrev pub peer_reputation_or_half : Option (PeerInfo P) → P.f32.Carrier
  peer_reputation_or_half none = P.f32.literal 1 2
  peer_reputation_or_half (some p) = p.reputation

  unfoldable pub nudge_peer_reputation : String → P.f32.Carrier → Store P (Unit {0})
  nudge_peer_reputation node_id delta = do
    peers ← list_peers P
    ignore (
        update_peer_reputation P node_id
          (clamp_unit P.f32 (P.f32.add (peer_reputation_or_half (find_peer node_id peers)) delta)))

  abbrev pub port_text : Option ℕ → String
  port_text none = ""
  port_text (some p) = concat ":" (P.decimal p)

  abbrev pub well_known : Url → Option String
  well_known u = elim u.host [
    | none ↦ none
    | some h ↦ some (
        concat u.scheme
          (concat "://" (concat h (concat (port_text u.port) "/.well-known/semanticweft"))))
  ]

  abbrev pub declares : String → Option String → Bool
  declares node_id none = false
  declares node_id (some s) = s == node_id

  abbrev pub judge : String → Fetched → Store P (Unit {0})
  judge node_id unreachable = pure tt
  judge node_id (bad_status code) = pure tt
  judge node_id (document declared) = nudge_peer_reputation node_id (
      if declares node_id declared
      then P.f32.literal 2 100
      else P.f32.sub (P.f32.literal 0 1) (P.f32.literal 30 100))

  -- given the parser of URLs and what a GET comes to
  unfoldable pub verify_peer_reachability :
      (String → Option Url) → (String → Fetched) → String → String → Store P (Unit {0})
  verify_peer_reachability parse fetch node_id api_base = elim (parse api_base) [
    | none ↦ pure tt
    | some u ↦ elim (well_known u) [ none ↦ pure tt | some url ↦ judge node_id (fetch url) ]
  ]

  -- the header, where it is there and not empty
  abbrev pub caller_header : Option String → Option String
  caller_header none = none
  caller_header (some s) = if s == "" then none else some s

  -- the handler `update_reputation`, given the `X-Node-ID` header
  unfoldable pub vote_on_peer :
      NodeConfig P → String → Option String → ReputationUpdate P → Handler P (ℕ × PeerInfo P)
  vote_on_peer config node_id header update = do
    from_result (
        if is_outside P update.reputation
        then err (AppError.bad_request "reputation must be a finite number in [0.0, 1.0]")
        else ok tt)
    from_result (
        if node_id == config.node_id
        then err (AppError.forbidden "a node cannot update its own reputation")
        else ok tt)
    caller_id ← present (caller_header header) (
        AppError.forbidden
          (concat "X-Node-ID header is required; " "only known local peers may update reputation"))
    peers ← stored (list_peers P)
    caller ← present (find_peer caller_id peers) (
        AppError.forbidden
          (concat "caller is not a known local peer; " "reputation updates are community-internal"))
    stats ← stored (peer_reputation_stats P)
    from_result (
        if P.f32.lt caller.reputation (voting_threshold P config stats)
        then err (below_threshold P caller.reputation (voting_threshold P config stats))
        else ok tt)
    target ← present (find_peer node_id peers) (peer_not_found node_id)
    outcome ← attempt (
        update_peer_reputation P node_id
          (weighted P target.reputation update.reputation caller.reputation))
    from_result (or_missing P (peer_not_found node_id) outcome)
    after ← stored (list_peers P)
    peer ← present (find_peer node_id after) (peer_not_found node_id)
    pure (200, peer)

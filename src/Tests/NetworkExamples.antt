-- ===== src/Tests/NetworkExamples.antt =====
-- Examples for the theorems on packages/node/src/peer_discovery.rs and federation.rs.
use symantic_weft.Prelude.{
  false, ◌≢◌, ◌==◌, sym, ◌∙◌, eq_iff, ◌<◌, true, is_some, length, Among, ok, none, some, [], ◌∷◌,
  String, ◌≡◌, refl, arith,
}
use symantic_weft.Prelude.Map.{lookup}
use symantic_weft.Core.Types.{SemanticUnit}
use symantic_weft.Node.Memory.{Inner}
use symantic_weft.Node.Memory.Units.{passes}
use symantic_weft.Node.Memory.Units.Pages.{IsStored, remaining}
use symantic_weft.Node.Federation.{sync_peer}
use symantic_weft.Node.Federation.Serve.{serve, public_filter}
use symantic_weft.Node.Federation.Replication.{sync_peer_replicates}
use symantic_weft.NodeApi.{PeerInfo}
use symantic_weft.Node.PeerDiscovery.{Network, replied, bootstrap}
use symantic_weft.Node.PeerDiscovery.Cap.{IsCapped, memory-IsPeerStore, bootstrap-IsCapped}
use symantic_weft.Node.Memory.Instance.{memory}
use symantic_weft.AgentCore.Address.{AgentAddress, parse_address, display_address}
use symantic_weft.AgentCore.Address.RoundTrip.{parse_address-display_address}
use symantic_weft.Tests.Sample.{demo, demo_store, demo_state, keep}

abbrev demo_peer : String → PeerInfo demo
demo_peer id = record {
  node_id = id;
  api_base = "https://p/v1";
  reputation = 500;
  last_seen = none;
}

-- Every node answers with the same identity and the same two peers.
abbrev demo_network : Network demo
demo_network = record {
  node_info = λ url. replied 200 (some "p");
  peer_list = λ url. replied 200 (some (demo_peer "me" ∷ demo_peer "p" ∷ []));
}

demo_store-IsCapped : IsCapped 1 "me" demo_store.peers
unfolding lookup
demo_store-IsCapped = record { keyed = tt; few = omega arith; no_self = refl }

bootstrap-IsCapped_example :
    IsCapped 1 "me"
      (bootstrap demo (memory demo) demo_network 1 "me" ("https://q/v1" ∷ []) demo_store).peers
bootstrap-IsCapped_example =
    bootstrap-IsCapped demo (memory demo) memory-IsPeerStore demo_network 1 "me"
      ("https://q/v1" ∷ []) demo_store (omega arith) demo_store-IsCapped

demo_store-IsStored : IsStored demo_store.units
demo_store-IsStored = record {
  sorted = ((refl, (refl, tt)), ((refl, tt), (tt, tt)));
  keyed = (refl, (refl, (refl, tt)));
}

abbrev empty_store : Inner demo
empty_store = record demo_store { units = [] }

one_public :
    length (remaining (public_filter (lookup "https://p/v1" empty_store.cursors)) demo_store) < 3
unfolding lookup passes
one_public = omega arith

sync_peer_replicates_example :
    (t : Inner demo) × (sync_peer demo 3 (serve keep demo_state) "https://p/v1" empty_store
      ≡ some (ok tt, t))
    × ((id : String) (v : SemanticUnit demo)
        → lookup id empty_store.units ≡ some v
        → lookup id t.units ≡ some v)
    × ((u : SemanticUnit demo)
        → Among u (
            remaining
              (public_filter (lookup "https://p/v1" empty_store.cursors))
              demo_state.storage)
        → is_some (lookup u.id t.units) ≡ true)
sync_peer_replicates_example =
    sync_peer_replicates demo keep demo_state "https://p/v1" 3 empty_store demo_store-IsStored
      one_public

not_empty : (s : String) → (s == "") ≡ false → s ≢ ""
not_empty s h e = cc (sym h ∙ (eq_iff s "").1 e)

abbrev demo_address : AgentAddress
demo_address = record { did = "did:web:a@b"; hostname = "n.example" }

parse_address-display_address_example :
    parse_address keep (display_address demo_address) ≡ ok demo_address
parse_address-display_address_example =
    parse_address-display_address keep demo_address refl refl refl (not_empty "did:web:a@b" refl)
      (not_empty "n.example" refl)

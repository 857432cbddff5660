-- ===== src/Node/Handlers/Discovery.antt =====
-- packages/node/src/handlers/node.rs: the discovery document that a node serves.
use symantic_weft.Prelude.{[], ◌∷◌}
use symantic_weft.Platform.{Platform}
use symantic_weft.NodeApi.Node.{NodeInfo, sync, sse, subgraph, peers, agents, follows, new_info}
use symantic_weft.Node.State.{NodeConfig}

module _ (P : Platform) where
  abbrev pub well_known : NodeConfig P → NodeInfo
  well_known cfg = record (new_info cfg.node_id cfg.api_base) {
    name = cfg.name;
    contact = cfg.contact;
    public_key = cfg.public_key;
    capabilities = sync ∷ sse ∷ subgraph ∷ peers ∷ agents ∷ follows ∷ [];
  }

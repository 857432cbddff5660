-- ===== src/Node/Memory.antt =====
-- packages/node/src/storage/memory.rs: the state of `MemoryStorage`. Each method holds the lock for
-- its whole body, so it is one step on `Inner`.
pub mod Units
pub mod Agents
pub mod Follows
pub mod Peers
pub mod Settings
pub mod Instance
use symantic_weft.Prelude.{List, [], String}
use symantic_weft.Prelude.Action.{Action}
use symantic_weft.Prelude.Map.{Map}
use symantic_weft.Platform.{Platform}
use symantic_weft.Core.Types.{SemanticUnit}
use symantic_weft.NodeApi.{AgentProfile, PeerInfo}
use symantic_weft.Node.Storage.{StorageError}

pub record Inner (P : Platform) : Type 0 where
  -- `BTreeMap`: the keys stand in order
  pub units : Map (SemanticUnit P)
  pub unit_credibility : Map P.f32.Carrier
  pub agents : Map (AgentProfile P)
  pub follows : List (String × String)
  pub peers : Map (PeerInfo P)
  pub cursors : Map String
  pub node_config : Map String
  pub inbox : Map (Map (SemanticUnit P))

module _ (P : Platform) where
  abbrev pub Store : Type 0 → Type 0
  Store A = Action (Inner P) StorageError A

  abbrev pub empty : Inner P
  empty = record {
    units = [];
    unit_credibility = [];
    agents = [];
    follows = [];
    peers = [];
    cursors = [];
    node_config = [];
    inbox = [];
  }

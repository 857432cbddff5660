-- ===== src/Node/Storage/Interface.antt =====
-- The trait `Storage` of packages/node/src/storage/mod.rs. A method is a step on a state that its
-- client does not see, and may fail.
use symantic_weft.Prelude.{ℕ, Bool, Option, List, String}
use symantic_weft.Prelude.Action.{Action}
use symantic_weft.Platform.{Platform}
use symantic_weft.Core.Types.{SemanticUnit}
use symantic_weft.NodeApi.{AgentProfile, PeerInfo}
use symantic_weft.Node.Storage.{StorageError, UnitFilter, ReputationStats}

pub record Storage (P : Platform) : Type 1 where
  pub State : Type 0
  pub put_unit : SemanticUnit P → Action State StorageError (Unit {0})
  pub get_unit : String → Action State StorageError (Option (SemanticUnit P))
  pub list_units : UnitFilter → Action State StorageError (List (SemanticUnit P) × Bool)
  pub get_referencing_units : String → Action State StorageError (List (SemanticUnit P))
  pub set_unit_credibility : String → P.f32.Carrier → Action State StorageError (Unit {0})
  pub put_agent : AgentProfile P → Action State StorageError (Unit {0})
  pub get_agent : String → Action State StorageError (Option (AgentProfile P))
  pub delete_agent : String → Action State StorageError (Unit {0})
  pub increment_agent_contribution : String → ℕ → Action State StorageError Bool
  pub update_agent_reputation : String → P.f32.Carrier → Action State StorageError (Unit {0})
  pub agent_reputation_stats : Action State StorageError (ReputationStats P)
  pub add_follow : String → String → Action State StorageError (Unit {0})
  pub remove_follow : String → String → Action State StorageError (Unit {0})
  pub list_following : String → Action State StorageError (List String)
  pub list_followers : String → Action State StorageError (List String)
  pub is_following : String → String → Action State StorageError Bool
  pub add_peer : PeerInfo P → Action State StorageError (Unit {0})
  pub remove_peer : String → Action State StorageError (Unit {0})
  pub update_peer_reputation : String → P.f32.Carrier → Action State StorageError (Unit {0})
  pub list_peers : Action State StorageError (List (PeerInfo P))
  pub peer_reputation_stats : Action State StorageError (ReputationStats P)
  pub get_node_config : String → Action State StorageError (Option String)
  pub set_node_config : String → String → Action State StorageError (Unit {0})
  pub get_cursor : String → Action State StorageError (Option String)
  pub set_cursor : String → String → Action State StorageError (Unit {0})
  pub deliver_to_inbox : String → SemanticUnit P → Action State StorageError (Unit {0})
  pub get_inbox :
      String → Option String → ℕ → Action State StorageError (List (SemanticUnit P) × Bool)

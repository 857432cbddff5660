-- ===== src/Node/State.antt =====
-- The state that the handlers share (`AppState` of packages/node/src/handlers/mod.rs) and `NodeConfig`
-- of packages/node/src/config.rs. What a handler sends to the live subscribers and the tasks that
-- it spawns are kept in the order in which it does so.
use symantic_weft.Prelude.{ℕ, Bool, Option, List, ◌∷◌, [], ◌++◌, String, Result, ok, err}
use symantic_weft.Prelude.Action.{Action}
use symantic_weft.Platform.{Platform}
use symantic_weft.Core.Types.{SemanticUnit}
use symantic_weft.NodeApi.{AgentProfile}
use symantic_weft.Node.Storage.{StorageError}
use symantic_weft.Node.Memory.{Inner, Store}
use symantic_weft.Node.Error.{AppError, from_storage}

pub record NodeConfig (P : Platform) : Type 0 where
  pub node_id : String
  pub name : Option String
  pub api_base : String
  pub contact : Option String
  pub bind_addr : String
  pub db_path : Option String
  pub sync_interval_secs : ℕ
  pub bootstrap_peers : List String
  pub max_peers : ℕ
  pub public_key : Option String
  pub rate_limit_per_minute : ℕ
  pub reputation_vote_sigma_factor : P.f32.Carrier
  pub operator_webhook_url : Option String
  pub probation_threshold : ℕ

-- What `tokio::spawn` is given
pub data Task (P : Platform) : Type 0 where
  fan_out : SemanticUnit P → Task P
  verify_reachability : String → String → Task P
  -- the URL, the profile, the sponsor and whether the sponsor is valid
  admission_webhook : String → AgentProfile P → Option String → Bool → Task P

pub record AppState (P : Platform) : Type 0 where
  pub storage : Inner P
  pub broadcast : List (SemanticUnit P)
  pub spawned : List (Task P)

module _ (P : Platform) where
  abbrev pub Handler : Type 0 → Type 0
  Handler A = Action (AppState P) AppError A

abbrev pub to_app : {A : Type 0} → Result A StorageError → Result A AppError
to_app (ok a) = ok a
to_app (err e) = err (from_storage e)

module _ {P : Platform} where
  -- `state.storage.….await?`
  abbrev pub stored : {A : Type 0} → Store P A → Handler P A
  stored m s = (to_app (m s.storage).0, record s { storage = (m s.storage).1 })

  -- `state.storage.….await`, with its result as a value
  abbrev pub attempt : {A : Type 0} → Store P A → Handler P (Result A StorageError)
  attempt m s = (ok (m s.storage).0, record s { storage = (m s.storage).1 })

  -- `.ok_or_else(|| e)?`
  abbrev pub present : {A : Type 0} → Option A → AppError → Handler P A
  present Option.none e s = (err e, s)
  present (Option.some a) e s = (ok a, s)

  abbrev pub send : SemanticUnit P → AppState P → AppState P
  send unit s = record s { broadcast = s.broadcast ++ (unit ∷ []) }

  abbrev pub spawn : Task P → AppState P → AppState P
  spawn task s = record s { spawned = s.spawned ++ (task ∷ []) }

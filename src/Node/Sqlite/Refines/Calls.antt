-- ===== src/Node/Sqlite/Refines/Calls.antt =====
-- Sequences of calls on `SqliteStorage` and on `MemoryStorage` (packages/node/src/storage/sqlite.rs
-- and memory.rs), as a client of the trait `Storage` makes them.
use symantic_weft.Prelude.{
  ℕ, ◌+◌, ◌<◌, Bool, Option, some, List, [], ◌∷◌, String, ◌≡◌, refl, ap, ◌∙◌, Result, ok, err,
  u32_mod,
}
use symantic_weft.Prelude.Map.{lookup}
use symantic_weft.Platform.{Platform}
use symantic_weft.Core.Types.{SemanticUnit}
use symantic_weft.NodeApi.{AgentProfile, PeerInfo}
use symantic_weft.Node.Storage.{StorageError, UnitFilter}
use symantic_weft.Node.Memory.{Inner, empty}
use symantic_weft.Node.Memory.Units as MemoryUnits
use symantic_weft.Node.Memory.Agents as MemoryAgents
use symantic_weft.Node.Memory.Follows as MemoryFollows
use symantic_weft.Node.Memory.Peers as MemoryPeers
use symantic_weft.Node.Memory.Settings as MemorySettings
use symantic_weft.Node.Sqlite.{Engine, Tables, Connection, schema}
use symantic_weft.Node.Sqlite.Units as SqlUnits
use symantic_weft.Node.Sqlite.Agents as SqlAgents
use symantic_weft.Node.Sqlite.Follows as SqlFollows
use symantic_weft.Node.Sqlite.Peers as SqlPeers
use symantic_weft.Node.Sqlite.Settings as SqlSettings
use symantic_weft.Node.Sqlite.Refines.Agree.{quiet, Agree, Simulates, IsEncoded}
use symantic_weft.Node.Sqlite.Refines.Units.{put_unit_refines, get_unit_refines, list_units_refines}
use symantic_weft.Node.Sqlite.Refines.Agents.{
  put_agent_refines, get_agent_refines, delete_agent_refines, update_agent_reputation_refines,
}
use symantic_weft.Node.Sqlite.Refines.Contributions.{increment_agent_contribution_refines}
use symantic_weft.Node.Sqlite.Refines.Follows.{
  add_follow_refines, remove_follow_refines, is_following_refines,
}
use symantic_weft.Node.Sqlite.Refines.Peers.{
  add_peer_refines, remove_peer_refines, update_peer_reputation_refines,
}
use symantic_weft.Node.Sqlite.Refines.Settings.{
  get_cursor_refines, set_cursor_refines, get_node_config_refines, set_node_config_refines,
}

pub data Call (P : Platform) : Type 0 where
  put_unit : SemanticUnit P → Call P
  get_unit : String → Call P
  list_units : UnitFilter → Call P
  put_agent : AgentProfile P → Call P
  get_agent : String → Call P
  delete_agent : String → Call P
  increment_agent_contribution : String → ℕ → Call P
  update_agent_reputation : String → P.f32.Carrier → Call P
  add_follow : String → String → Call P
  remove_follow : String → String → Call P
  is_following : String → String → Call P
  add_peer : PeerInfo P → Call P
  remove_peer : String → Call P
  update_peer_reputation : String → P.f32.Carrier → Call P
  get_cursor : String → Call P
  set_cursor : String → String → Call P
  get_node_config : String → Call P
  set_node_config : String → String → Call P

pub data Answer (P : Platform) : Type 0 where
  done : Unit {0} → Answer P
  unit : Option (SemanticUnit P) → Answer P
  page : List (SemanticUnit P) × Bool → Answer P
  agent : Option (AgentProfile P) → Answer P
  flag : Bool → Answer P
  text : Option String → Answer P

abbrev answered :
    {P : Platform} {S A : Type 0}
    → (A → Answer P)
    → Result A StorageError × S
    → Result (Answer P) StorageError × S
answered f (ok x, s) = (ok (f x), s)
answered f (err e, s) = (err e, s)

module _ {P : Platform} where
  unfoldable pub on_sqlite :
      Engine P → Call P → Connection P → Result (Answer P) StorageError × Connection P
  on_sqlite E (Call.put_unit u) s = answered done (SqlUnits.put_unit P E u s)
  on_sqlite E (Call.get_unit id) s = answered unit (SqlUnits.get_unit P E id s)
  on_sqlite E (Call.list_units f) s = answered page (SqlUnits.list_units P E f s)
  on_sqlite E (Call.put_agent p) s = answered done (SqlAgents.put_agent P p s)
  on_sqlite E (Call.get_agent did) s = answered agent (SqlAgents.get_agent P E did s)
  on_sqlite E (Call.delete_agent did) s = answered done (SqlAgents.delete_agent P did s)
  on_sqlite E (Call.increment_agent_contribution did threshold) s =
      answered flag (SqlAgents.increment_agent_contribution P E did threshold s)
  on_sqlite E (Call.update_agent_reputation did x) s =
      answered done (SqlAgents.update_agent_reputation P did x s)
  on_sqlite E (Call.add_follow x y) s = answered done (SqlFollows.add_follow P x y s)
  on_sqlite E (Call.remove_follow x y) s = answered done (SqlFollows.remove_follow P x y s)
  on_sqlite E (Call.is_following x y) s = answered flag (SqlFollows.is_following P x y s)
  on_sqlite E (Call.add_peer p) s = answered done (SqlPeers.add_peer P p s)
  on_sqlite E (Call.remove_peer id) s = answered done (SqlPeers.remove_peer P id s)
  on_sqlite E (Call.update_peer_reputation id x) s =
      answered done (SqlPeers.update_peer_reputation P id x s)
  on_sqlite E (Call.get_cursor url) s = answered text (SqlSettings.get_cursor P url s)
  on_sqlite E (Call.set_cursor url cursor) s = answered done (SqlSettings.set_cursor P url cursor s)
  on_sqlite E (Call.get_node_config key) s = answered text (SqlSettings.get_node_config P key s)
  on_sqlite E (Call.set_node_config key value) s =
      answered done (SqlSettings.set_node_config P key value s)

  unfoldable pub on_memory : Call P → Inner P → Result (Answer P) StorageError × Inner P
  on_memory (Call.put_unit u) s = answered done (MemoryUnits.put_unit P u s)
  on_memory (Call.get_unit id) s = answered unit (MemoryUnits.get_unit P id s)
  on_memory (Call.list_units f) s = answered page (MemoryUnits.list_units P f s)
  on_memory (Call.put_agent p) s = answered done (MemoryAgents.put_agent P p s)
  on_memory (Call.get_agent did) s = answered agent (MemoryAgents.get_agent P did s)
  on_memory (Call.delete_agent did) s = answered done (MemoryAgents.delete_agent P did s)
  on_memory (Call.increment_agent_contribution did threshold) s =
      answered flag (MemoryAgents.increment_agent_contribution P did threshold s)
  on_memory (Call.update_agent_reputation did x) s =
      answered done (MemoryAgents.update_agent_reputation P did x s)
  on_memory (Call.add_follow x y) s = answered done (MemoryFollows.add_follow P x y s)
  on_memory (Call.remove_follow x y) s = answered done (MemoryFollows.remove_follow P x y s)
  on_memory (Call.is_following x y) s = answered flag (MemoryFollows.is_following P x y s)
  on_memory (Call.add_peer p) s = answered done (MemoryPeers.add_peer P p s)
  on_memory (Call.remove_peer id) s = answered done (MemoryPeers.remove_peer P id s)
  on_memory (Call.update_peer_reputation id x) s =
      answered done (MemoryPeers.update_peer_reputation P id x s)
  on_memory (Call.get_cursor url) s = answered text (MemorySettings.get_cursor P url s)
  on_memory (Call.set_cursor url cursor) s =
      answered done (MemorySettings.set_cursor P url cursor s)
  on_memory (Call.get_node_config key) s = answered text (MemorySettings.get_node_config P key s)
  on_memory (Call.set_node_config key value) s =
      answered done (MemorySettings.set_node_config P key value s)

  unfoldable pub replies :
      {S : Type 0}
      → (Call P → S → Result (Answer P) StorageError × S)
      → List (Call P)
      → S
      → List (Result (Answer P) StorageError)
  replies on [] s = []
  replies on (c ∷ calls) s = (on c s).0 ∷ replies on calls (on c s).1

  -- What a call needs: a unit that can be encoded, counts within their type, and the reputation 0.5
  -- for a new peer.
  abbrev pub IsAllowed : Engine P → Call P → Inner P → Type 0
  IsAllowed E (Call.put_unit u) s = IsEncoded E u
  IsAllowed E (Call.put_agent p) s = p.contribution_count < u32_mod
  IsAllowed E (Call.increment_agent_contribution did threshold) s =
      (p : AgentProfile P) → lookup did s.agents ≡ some p → p.contribution_count + 1 < u32_mod
  IsAllowed E (Call.add_peer p) s = P.narrow (P.f64.literal 1 2) ≡ p.reputation
  IsAllowed E _ s = Unit

  -- Every call is allowed where it is made.
  unfoldable pub AreAllowed : Engine P → List (Call P) → Inner P → Type 0
  AreAllowed E [] s = Unit
  AreAllowed E (c ∷ calls) s = IsAllowed E c s × AreAllowed E calls (on_memory c s).1

module _ {P : Platform} (E : Engine P) where
  Simulates-answered :
      {A : Type 0} (f : A → Answer P) (r : Result A StorageError × Connection P)
      (m : Result A StorageError × Inner P)
      → Simulates E r m
      → Simulates E (answered f r) (answered f m)
  Simulates-answered f r (ok x, s) (t, e, a) = (t, ap (answered f) e, a)
  Simulates-answered f r (err x, s) (t, e, a) = (t, ap (answered f) e, a)

  call_refines :
      ((x : P.f32.Carrier) → P.narrow (P.widen x) ≡ x)
      → (c : Call P) (t : Tables P) (s : Inner P) → IsAllowed E c s
      → Agree E t s
      → Simulates E (on_sqlite E c (quiet t)) (on_memory c s)
  unfolding on_sqlite on_memory
  call_refines exact (Call.put_unit u) t s fine a =
      Simulates-answered done _ _ (put_unit_refines E u t s fine a)
  call_refines exact (Call.get_unit id) t s fine a =
      Simulates-answered unit _ _ (get_unit_refines E id t s a)
  call_refines exact (Call.list_units f) t s fine a =
      Simulates-answered page _ _ (list_units_refines E f t s a)
  call_refines exact (Call.put_agent p) t s fine a =
      Simulates-answered done _ _ (put_agent_refines E exact p t s fine a)
  call_refines exact (Call.get_agent did) t s fine a =
      Simulates-answered agent _ _ (get_agent_refines E exact did t s a)
  call_refines exact (Call.delete_agent did) t s fine a =
      Simulates-answered done _ _ (delete_agent_refines E exact did t s a)
  call_refines exact (Call.increment_agent_contribution did threshold) t s fine a =
      Simulates-answered flag _ _ (increment_agent_contribution_refines E did threshold t s fine a)
  call_refines exact (Call.update_agent_reputation did x) t s fine a =
      Simulates-answered done _ _ (update_agent_reputation_refines E exact did x t s a)
  call_refines exact (Call.add_follow x y) t s fine a =
      Simulates-answered done _ _ (add_follow_refines E x y t s a)
  call_refines exact (Call.remove_follow x y) t s fine a =
      Simulates-answered done _ _ (remove_follow_refines E x y t s a)
  call_refines exact (Call.is_following x y) t s fine a =
      Simulates-answered flag _ _ (is_following_refines E x y t s a)
  call_refines exact (Call.add_peer p) t s fine a =
      Simulates-answered done _ _ (add_peer_refines E p t s fine a)
  call_refines exact (Call.remove_peer id) t s fine a =
      Simulates-answered done _ _ (remove_peer_refines E id t s a)
  call_refines exact (Call.update_peer_reputation id x) t s fine a =
      Simulates-answered done _ _ (update_peer_reputation_refines E exact id x t s a)
  call_refines exact (Call.get_cursor url) t s fine a =
      Simulates-answered text _ _ (get_cursor_refines E url t s a)
  call_refines exact (Call.set_cursor url cursor) t s fine a =
      Simulates-answered done _ _ (set_cursor_refines E url cursor t s a)
  call_refines exact (Call.get_node_config key) t s fine a =
      Simulates-answered text _ _ (get_node_config_refines E key t s a)
  call_refines exact (Call.set_node_config key value) t s fine a =
      Simulates-answered done _ _ (set_node_config_refines E key value t s a)

  replies_refine :
      ((x : P.f32.Carrier) → P.narrow (P.widen x) ≡ x)
      → (calls : List (Call P)) (t : Tables P) (s : Inner P) → AreAllowed E calls s
      → Agree E t s
      → replies (on_sqlite E) calls (quiet t) ≡ replies on_memory calls s
  unfolding replies AreAllowed
  replies_refine exact [] t s fine a = refl
  replies_refine exact (c ∷ calls) t s fine a =
      let (u, e, b) = call_refines exact c t s fine.0 a in
      (λ i. (e i).0 ∷ replies (on_sqlite E) calls (e i).1)
      ∙ ap (◌∷◌ (on_memory c s).0) (replies_refine exact calls u (on_memory c s).1 fine.1 b)

  schema-Agree : Agree E (schema P) (empty P)
  schema-Agree = record {
    units = record { index = []; holds = tt; distinct = tt; ordered = refl };
    agents = refl;
    counts = tt;
    follows = refl;
    peers = refl;
    cursors = refl;
    node_config = refl;
  }

-- From an empty database and an empty memory on, any sequence of calls on units (store, read, list),
-- agents, follows (add, remove, test), peers (add, remove, rate), cursors and settings is answered
-- alike by both storages, errors and pages included, where no SQL statement fails, an `f32` survives
-- its way through `f64`, the stored units survive JSON, the counts stay within `u32` and new peers
-- come with the reputation 0.5.
pub sqlite_refines_memory :
    (P : Platform) (E : Engine P)
    → ((x : P.f32.Carrier) → P.narrow (P.widen x) ≡ x)
    → (calls : List (Call P)) → AreAllowed E calls (empty P)
    → replies (on_sqlite E) calls (quiet (schema P)) ≡ replies on_memory calls (empty P)
sqlite_refines_memory P E exact calls fine =
    replies_refine E exact calls (schema P) (empty P) fine (schema-Agree E)

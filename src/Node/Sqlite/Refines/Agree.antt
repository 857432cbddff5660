-- ===== src/Node/Sqlite/Refines/Agree.antt =====
-- When the tables of packages/node/src/storage/sqlite.rs hold the state of memory.rs.
use symantic_weft.Prelude.{◌<◌, [], ◌∷◌, String, ◌≡◌, ◌∙◌, ap, sym, subst, Result, ok, All, u32_mod}
use symantic_weft.Prelude.Map.{Map}
use symantic_weft.Prelude.Map.Distinct.{Distinct}
use symantic_weft.Platform.{Platform}
use symantic_weft.Core.Types.{SemanticUnit}
use symantic_weft.NodeApi.{AgentProfile, PeerInfo}
use symantic_weft.Node.Storage.{StorageError}
use symantic_weft.Node.Memory.{Inner}
use symantic_weft.Node.Sqlite.{Engine, UnitRow, AgentRow, PeerRow, Tables, Connection}
use symantic_weft.Node.Sqlite.Units.{order_by_key}
use symantic_weft.Node.Sqlite.Agents.{row_profile}
use symantic_weft.Node.Sqlite.Peers.{row_peer}
use symantic_weft.Node.Sqlite.Refines.Rows.{AreRows}

module _ {P : Platform} where
  -- A connection on which no statement fails.
  abbrev pub quiet : Tables P → Connection P
  quiet t = record { tables = t; outcomes = [] }

  abbrev pub profiles : Map (AgentRow P) → Map (AgentProfile P)
  profiles [] = []
  profiles ((did, row) ∷ m) = (did, row_profile P did row) ∷ profiles m

  abbrev pub peer_infos : Map (PeerRow P) → Map (PeerInfo P)
  peer_infos [] = []
  peer_infos ((id, row) ∷ m) = (id, row_peer P (id, row)) ∷ peer_infos m

  -- The counts of contributions fit into their Rust type.
  abbrev pub AreCounts : Map (AgentRow P) → Type 0
  AreCounts m = All (λ (e : String × AgentRow P). e.1.contribution_count < u32_mod) m

module _ {P : Platform} (E : Engine P) where
  -- The rows hold some units, each under its own id; in the order of the ids these are the units of
  -- the map.
  pub record UnitsAgree (rows : Map (UnitRow P)) (units : Map (SemanticUnit P)) : Type 0 where
    pub index : Map (SemanticUnit P)
    pub holds : AreRows E rows index
    pub distinct : Distinct index
    pub ordered : order_by_key index ≡ units

  pub record Agree (t : Tables P) (s : Inner P) : Type 0 where
    pub units : UnitsAgree t.units s.units
    pub agents : profiles t.agents ≡ s.agents
    pub counts : AreCounts t.agents
    pub follows : t.follows ≡ s.follows
    pub peers : peer_infos t.peers ≡ s.peers
    pub cursors : t.sync_cursors ≡ s.cursors
    pub node_config : t.node_config ≡ s.node_config

  -- The same answer, and states that agree.
  abbrev pub Simulates :
      {A : Type 0} → Result A StorageError × Connection P → Result A StorageError × Inner P → Type 0
  Simulates r m = (t : Tables P) × (r ≡ (m.0, quiet t)) × Agree t m.1

  -- The text of the unit decodes to it.
  abbrev pub IsEncoded : SemanticUnit P → Type 0
  IsEncoded u = (d : String) × (E.to_json u ≡ ok d) × (E.from_json d ≡ ok u)

  pub simulated :
      {A : Type 0} {r : Result A StorageError × Connection P} {m : Result A StorageError × Inner P}
      (answer : Result A StorageError) (t : Tables P) (s : Inner P)
      → r ≡ (answer, quiet t)
      → m ≡ (answer, s)
      → Agree t s
      → Simulates r m
  simulated answer t s e k a =
      (t, e ∙ ap (λ z. (z.0, quiet t)) (sym k), subst (λ z. Agree t z) (sym (ap (λ z. z.1) k)) a)

-- ===== src/Node/Sqlite.antt =====
-- packages/node/src/storage/sqlite.rs: the tables of the schema, and statements run one after the
-- other on one connection. A statement has the effect that SQL gives it on the tables, or fails
-- with an error of `rusqlite` and has none; which ones fail is a list of outcomes in the state.
-- The order of the rows stands for the order in which SQLite visits them where no `ORDER BY` says
-- more.
pub mod Units
pub mod Agents
pub mod Follows
pub mod Peers
pub mod Settings
pub mod Instance
pub mod Refines
use symantic_weft.Prelude.{
  ℕ, Option, none, some, List, [], ◌∷◌, String, concat, Result, ok, err, ◌>>=◌,
}
use symantic_weft.Prelude.Action.{Action}
use symantic_weft.Prelude.Map.{Map}
use symantic_weft.Platform.{Platform}
use symantic_weft.Core.Types.{SemanticUnit}
use symantic_weft.Node.Storage.{StorageError, internal}

-- What `serde_json` and SQLite compute
pub record Engine (P : Platform) : Type 0 where
  -- `serde_json::to_string` and `from_str`, with the text of an error
  pub to_json : SemanticUnit P → Result String String
  pub from_json : String → Result (SemanticUnit P) String
  -- the text of the error where a column holds a number outside `u32`
  pub out_of_range : ℕ → String
  -- `AVG` of the column of at least one row
  pub average : List P.f64.Carrier → P.f64.Carrier

pub record UnitRow (P : Platform) : Type 0 where
  pub unit_type : String
  pub author : String
  pub created_at : String
  pub visibility : String
  pub json : String
  pub credibility : Option P.f64.Carrier

pub record AgentRow (P : Platform) : Type 0 where
  pub inbox_url : String
  pub display_name : Option String
  pub public_key : Option String
  pub status : String
  pub contribution_count : ℕ
  pub reputation : P.f64.Carrier

pub record PeerRow (P : Platform) : Type 0 where
  pub api_base : String
  pub reputation : P.f64.Carrier
  pub last_seen : Option String

-- A table with one key column is a map from it.
pub record Tables (P : Platform) : Type 0 where
  pub units : Map (UnitRow P)
  pub unit_references : List (String × String)
  pub agents : Map (AgentRow P)
  pub follows : List (String × String)
  pub peers : Map (PeerRow P)
  pub sync_cursors : Map String
  pub node_config : Map String
  -- by `agent_did`, then by `unit_id`
  pub inbox : List (String × String × String)

pub record Connection (P : Platform) : Type 0 where
  pub tables : Tables P
  -- the outcomes of the next statements: `none` for success, or the text of the error
  pub outcomes : List (Option String)

-- `map_err` and `map_json_err`
abbrev pub map_err : String → StorageError
map_err e = internal e

abbrev pub map_json_err : String → StorageError
map_json_err e = internal (concat "JSON error: " e)

module _ (P : Platform) where
  abbrev pub Sql : Type 0 → Type 0
  Sql A = Action (Connection P) StorageError A

  -- the empty database that `open` creates
  abbrev pub schema : Tables P
  schema = record {
    units = [];
    unit_references = [];
    agents = [];
    follows = [];
    peers = [];
    sync_cursors = [];
    node_config = [];
    inbox = [];
  }

module _ {P : Platform} where
  abbrev pub run_with :
      {A : Type 0}
      → (Tables P → A × Tables P)
      → Tables P
      → List (Option String)
      → Result A StorageError × Connection P
  run_with f t [] = (ok (f t).0, record { tables = (f t).1; outcomes = [] })
  run_with f t (none ∷ rest) = (ok (f t).0, record { tables = (f t).1; outcomes = rest })
  run_with f t (some e ∷ rest) = (err (map_err e), record { tables = t; outcomes = rest })

  -- `conn.….map_err(map_err)?`
  abbrev pub statement : {A : Type 0} → (Tables P → A × Tables P) → Sql P A
  statement f c = run_with f c.tables c.outcomes

  abbrev pub query : {A : Type 0} → (Tables P → A) → Sql P A
  query f = statement (λ t. (f t, t))

  abbrev pub execute : (Tables P → Tables P) → Sql P (Unit {0})
  execute f = statement (λ t. (tt, f t))

abbrev pub json_result : {A : Type 0} → Result A String → Result A StorageError
json_result (ok a) = ok a
json_result (err e) = err (map_json_err e)

-- `.iter().map(|data| serde_json::from_str(data).map_err(map_json_err)).collect()`
abbrev pub decode_all :
    {A : Type 0} → (String → Result A String) → List String → Result (List A) StorageError
decode_all f [] = ok []
decode_all f (d ∷ ds) = do a ← json_result (f d); rest ← decode_all f ds; ok (a ∷ rest)

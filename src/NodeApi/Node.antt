-- ===== src/NodeApi/Node.antt =====
-- packages/node-api/src/node.rs: the discovery document of a node.
use symantic_weft.Prelude.{ℕ, Bool, false, Option, none, List, [], ◌∷◌, String}

pub data Capability : Type 0 where
  sync sse subgraph peers agents follows : Capability

pub record PowParams : Type 0 where
  pub algorithm : String
  pub difficulty : ℕ

pub record NodeInfo : Type 0 where
  pub node_id : String
  pub name : Option String
  pub protocol_version : String
  pub api_base : String
  pub capabilities : List Capability
  pub signing_required : Bool
  pub pow_required : Option PowParams
  pub contact : Option String
  pub public_key : Option String

-- `NodeInfo::new`
abbrev pub new_info : String → String → NodeInfo
new_info node_id api_base = record {
  node_id = node_id;
  name = none;
  protocol_version = "1.0";
  api_base = api_base;
  capabilities = Capability.sync ∷ [];
  signing_required = false;
  pow_required = none;
  contact = none;
  public_key = none;
}

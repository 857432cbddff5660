-- ===== src/NodeApi.antt =====
-- packages/node-api/src: the bodies of requests and responses.
pub mod Node
use symantic_weft.Prelude.{ℕ, Bool, false, Option, none, some, List, [], String, min, max, last?}
use symantic_weft.Prelude.Map.{Map}
use symantic_weft.Platform.{Platform}
use symantic_weft.Core.Types.{SemanticUnit}

pub data AgentStatus : Type 0 where
  full probationary : AgentStatus

pub record AgentProfile (P : Platform) : Type 0 where
  pub did : String
  pub inbox_url : String
  pub display_name : Option String
  pub public_key : Option String
  pub status : AgentStatus
  pub contribution_count : ℕ
  pub reputation : P.f32.Carrier

pub record RegisterRequest : Type 0 where
  pub did : String
  pub inbox_url : String
  pub display_name : Option String
  pub public_key : Option String

pub record ApplyRequest : Type 0 where
  pub did : String
  pub inbox_url : String
  pub display_name : Option String
  pub public_key : Option String
  pub sponsor_did : Option String

pub record ReputationUpdate (P : Platform) : Type 0 where
  pub reputation : P.f32.Carrier

pub record InboxResponse (P : Platform) : Type 0 where
  pub items : List (SemanticUnit P)
  pub next_cursor : Option String

pub record FollowRequest : Type 0 where
  pub target : String

pub record FollowEntry : Type 0 where
  pub did : String
  pub inbox_url : Option String

pub record FollowListResponse : Type 0 where
  pub items : List FollowEntry
  pub next_cursor : Option String

pub record PeerInfo (P : Platform) : Type 0 where
  pub node_id : String
  pub api_base : String
  pub reputation : P.f32.Carrier
  pub last_seen : Option String

pub record ListQuery : Type 0 where
  pub unit_types : List String
  pub author : Option String
  pub since : Option String
  pub after : Option String
  pub limit : Option ℕ

pub record ListResponse (P : Platform) : Type 0 where
  pub units : List (SemanticUnit P)
  pub cursor : Option String
  pub has_more : Bool
  pub author_reputations : Map P.f32.Carrier

-- `limit.map(|l| l.clamp(lo, hi)).unwrap_or(default)`
abbrev pub clamp_or : ℕ → ℕ → ℕ → Option ℕ → ℕ
clamp_or lo hi default none = default
clamp_or lo hi default (some l) = max lo (min hi l)

-- `ListQuery::effective_limit`
unfoldable pub effective_limit : ListQuery → ℕ
effective_limit q = clamp_or 1 500 50 q.limit

module _ (P : Platform) where
  -- `PeerInfo::new`
  unfoldable pub new_peer : String → String → PeerInfo P
  new_peer node_id api_base = record {
    node_id = node_id;
    api_base = api_base;
    reputation = P.f32.literal 1 2;
    last_seen = none;
  }

  -- `units.last().map(|u| u.id.clone())`
  abbrev pub last_id : List (SemanticUnit P) → Option String
  last_id units = elim (last? units) [ none ↦ none | some u ↦ some u.id ]

  -- `ListResponse::from_page`
  unfoldable pub from_page : List (SemanticUnit P) → Bool → ListResponse P
  from_page units has_more = record {
    units = units;
    cursor = last_id units;
    has_more = has_more;
    author_reputations = [];
  }

  -- `ListResponse::empty`
  unfoldable pub empty_page : ListResponse P
  empty_page = record { units = []; cursor = none; has_more = false; author_reputations = [] }

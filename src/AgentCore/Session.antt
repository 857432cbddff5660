-- ===== src/AgentCore/Session.antt =====
-- packages/agent-core/src/session.rs: the URLs of a node for one agent.
use symantic_weft.Prelude.{
  ℕ, Option, none, some, String, concat, Result, ok, err, ◌>>=◌, ok_or, ◌≡◌, refl,
}
use symantic_weft.AgentCore.Address.{
  AgentAddress, inbox_url as address_inbox_url, register_url as address_register_url,
}

pub data SessionError : Type 0 where
  parse_error : String → SessionError
  missing_api_base : SessionError

pub record NodeSession : Type 0 where
  pub api_base : String
  pub own_did : String

-- What `serde_json` reads of a discovery document: the value, and its text `api_base`
pub record Documents : Type 1 where
  pub Value : Type 0
  pub from_str : String → Result Value String
  pub api_base_of : Value → Option String

-- `NodeSession::new`, given `trim_end_matches('/')`
abbrev pub new_session : (String → String) → String → String → NodeSession
new_session trim_slashes api_base own_did = record {
  api_base = trim_slashes api_base;
  own_did = own_did;
}

abbrev parsed : {A : Type 0} → Result A String → Result A SessionError
parsed (ok a) = ok a
parsed (err e) = err (parse_error e)

-- `NodeSession::from_discovery`
unfoldable pub from_discovery :
    (String → String) → (D : Documents) → String → String → Result NodeSession SessionError
from_discovery trim_slashes D discovery_json own_did = do
  doc ← parsed (D.from_str discovery_json)
  api_base ← ok_or (D.api_base_of doc) missing_api_base
  ok (new_session trim_slashes api_base own_did)

module _ (encode : String → String) (s : NodeSession) where
  unfoldable pub inbox_url : String
  inbox_url = concat s.api_base (concat "/agents/" (concat (encode s.own_did) "/inbox"))

  unfoldable pub register_url : String
  register_url = concat s.api_base (concat "/agents/" (encode s.own_did))

  abbrev pub units_url : String
  units_url = concat s.api_base "/units"

  -- given the text of a number
  abbrev pub sync_url : (ℕ → String) → Option String → ℕ → String
  sync_url decimal (some cursor) limit =
      concat s.api_base
        (concat "/sync?after=" (concat (encode cursor) (concat "&limit=" (decimal limit))))
  sync_url decimal none limit = concat s.api_base (concat "/sync?limit=" (decimal limit))

  abbrev pub peers_url : String
  peers_url = concat s.api_base "/peers"

-- A session that an agent opens with the discovery document of a node, where the document parses and
-- has an `api_base`, is established, and it reads the inbox and registers at the URLs that another
-- node computes for the agent's address with the same `api_base`.
pub from_discovery-urls :
    (trim_slashes encode : String → String) (D : Documents) (a : AgentAddress)
    (json api_base : String) (doc : D.Value)
    → D.from_str json ≡ ok doc
    → D.api_base_of doc ≡ some api_base
    → (s : NodeSession) × (from_discovery trim_slashes D json a.did ≡ ok s)
      × (inbox_url encode s ≡ address_inbox_url trim_slashes encode a api_base)
      × (register_url encode s ≡ address_register_url trim_slashes encode a api_base)
unfolding from_discovery inbox_url register_url address_inbox_url address_register_url
from_discovery-urls trim_slashes encode D a json api_base doc h k =
    (new_session trim_slashes api_base a.did, rw (h, k, from_discovery) refl, refl, refl)

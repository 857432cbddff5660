-- ===== src/Node/Handlers/Remote.antt =====
-- `remote_fanout` and `push_to_inbox` of packages/node/src/handlers/units.rs: delivery to the inboxes
-- of other nodes. What the other nodes answer is a parameter.
pub mod Pushed
pub mod Steps
pub mod Groups
pub mod Reaches
use symantic_weft.Prelude.{
  ℕ, zero, suc, ◌+◌, Bool, true, false, ◌&&◌, Option, none, some, List, [], ◌∷◌, ◌++◌, String, leb,
  ltb, if◌then◌else◌, Result, ok, err, unwrap_or, has_char, concat, starts_with,
}
use symantic_weft.Prelude.Map.{Map, lookup, insert}
use symantic_weft.Platform.{Platform}
use symantic_weft.Core.Types.{
  SemanticUnit, Visibility, public, network, limited, effective_visibility,
}
use symantic_weft.AgentCore.Address.{AgentAddress, parse_address, well_known_url, inbox_url}
use symantic_weft.Node.Memory.{Inner}
use symantic_weft.Node.Memory.Instance.{memory}
use symantic_weft.Node.Memory.Agents.{get_agent}
use symantic_weft.Node.Memory.Follows.{list_followers}
use symantic_weft.Node.Handlers.Units.Fanout.{notify_author_of_failure}

-- An answer to a request, or the text of the error
pub data Reply (A : Type 0) : Type 0 where
  status : ℕ → A → Reply A
  failed : String → Reply A

-- The other nodes, and what `reqwest`, `serde_json`, `urlencoding` and `uuid` compute
pub record Internet : Type 0 where
  -- `GET` of a discovery document: the status, and the body or the error of reading it
  pub discover : String → Reply (Result String String)
  -- `POST` of the unit to an inbox, by the number of the attempt
  pub post : String → ℕ → Reply (Unit {0})
  -- `reqwest::Url::parse(url).is_ok()`
  pub is_url : String → Bool
  -- the text under `api_base` in a JSON document
  pub api_base_of : String → Option String
  pub encode : String → String
  -- the ids and times of the failure notices, by their number
  pub fresh_id : ℕ → String
  pub clock : ℕ → String

-- `status.is_success()`
abbrev pub is_success : ℕ → Bool
is_success s = leb 200 s && ltb s 300

-- What the attempts at one inbox come to: their number, and the last error unless one succeeded
pub record Outcome : Type 0 where
  pub attempts : ℕ
  pub error : Option String

-- The storage, the inboxes that were posted to with the number of attempts, and the number of
-- failure notices
pub record Sender (P : Platform) : Type 0 where
  pub storage : Inner P
  pub posted : List (String × ℕ)
  pub notices : ℕ

abbrev pub another : Outcome → Outcome
another o = record o { attempts = suc o.attempts }

-- One turn of the loop: what the reply means, and the rest of the loop where it goes on
unfoldable pub after_reply : (ℕ → String) → Reply (Unit {0}) → (String → Outcome) → Outcome
after_reply decimal (status s _) more =
    let message = concat "remote inbox returned HTTP " (decimal s) in
    let rest = another (more message) in
    if is_success s
    then record { attempts = 1; error = none }
    else if ltb s 500
    then record { attempts = 1; error = some message }
    else rest
after_reply decimal (failed e) more = another (more (concat "delivery failed: " e))

-- The loop over the attempts, with how many are left. The pause between two of them has no effect.
unfoldable pub attempts_from : Internet → (ℕ → String) → String → ℕ → ℕ → String → Outcome
attempts_from net decimal url zero attempt last_error = record {
  attempts = 0;
  error = some last_error;
}
attempts_from net decimal url (suc left) attempt last_error =
    after_reply decimal (net.post url attempt)
      (λ message. attempts_from net decimal url left (suc attempt) message)

-- `MAX_ATTEMPTS`
abbrev pub max_attempts : ℕ
max_attempts = 3

unfoldable pub attempt_delivery : Internet → (ℕ → String) → String → Outcome
attempt_delivery net decimal url = attempts_from net decimal url max_attempts 1 ""

module _ (P : Platform) (net : Internet) (node_did node_api_base : String) where
  -- `notify_author_of_failure`, whose errors are logged
  unfoldable pub notify : SemanticUnit P → String → String → Sender P → Sender P
  notify unit recipient reason s = record s {
    storage =
        (notify_author_of_failure P (memory P) (net.fresh_id s.notices) (net.clock s.notices)
          node_did unit recipient reason s.storage).1;
    notices = suc s.notices;
  }

  abbrev pub report : SemanticUnit P → String → Option String → Sender P → Sender P
  report unit url none s = s
  report unit url (some reason) s = notify unit url reason s

  abbrev pub pushed : SemanticUnit P → String → Outcome → Sender P → Sender P
  pushed unit url o s =
      report unit url o.error (record s { posted = s.posted ++ ((url, o.attempts) ∷ []) })

  unfoldable pub push_to_inbox : SemanticUnit P → String → Sender P → Sender P
  push_to_inbox unit url s =
      if net.is_url url then pushed unit url (attempt_delivery net P.decimal url) s else s

  -- The body of the loop over the followers
  unfoldable pub push_to_follower : SemanticUnit P → String → Sender P → Sender P
  push_to_follower unit did s = elim (get_agent P did s.storage).0 [
    | err e ↦ s
    | ok none ↦ s
    | ok (some profile) ↦
        if starts_with profile.inbox_url node_api_base
        then s
        else push_to_inbox unit profile.inbox_url s
  ]

  unfoldable pub push_to_followers : SemanticUnit P → List String → Sender P → Sender P
  push_to_followers unit [] s = s
  push_to_followers unit (did ∷ dids) s = push_to_followers unit dids (push_to_follower unit did s)

  -- `by_hostname.entry(addr.hostname).or_default().push(addr)`
  unfoldable pub add_address : AgentAddress → Map (List AgentAddress) → Map (List AgentAddress)
  add_address a m = insert a.hostname (unwrap_or (lookup a.hostname m) [] ++ (a ∷ [])) m

  abbrev pub add_parsed :
      {E : Type 0} → Result AgentAddress E → Map (List AgentAddress) → Map (List AgentAddress)
  add_parsed (ok a) m = add_address a m
  add_parsed (err e) m = m

  -- The loop over the audience
  unfoldable pub group_by_hostname : List String → Map (List AgentAddress) → Map (List AgentAddress)
  group_by_hostname [] m = m
  group_by_hostname (entry ∷ audience) m =
      group_by_hostname audience
        (if has_char b'@' entry then add_parsed (parse_address P.trim entry) m else m)

  -- The `api_base` that a host announces, or the reason why there is none
  unfoldable pub discovered_base : String → String → Result String String
  discovered_base hostname url = elim (net.discover url) [
    | failed e ↦ err (concat "could not reach " (concat hostname (concat " for discovery: " e)))
    | status s body ↦
        if is_success s
        then elim body [
          | err e ↦
              err
                (concat "could not read discovery response from " (concat hostname (concat ": " e)))
          | ok text ↦ elim (net.api_base_of text) [
            | some base ↦ ok base
            | none ↦ err (concat "discovery document from " (concat hostname " missing api_base"))
          ]
        ]
        else err (
            concat "discovery request to "
              (concat hostname (concat " returned HTTP " (P.decimal s))))
  ]

  abbrev pub first_url : List AgentAddress → String
  first_url [] = ""
  first_url (a ∷ addrs) = well_known_url a

  abbrev pub learn :
      SemanticUnit P → String → Result String String → Map String × Sender P → Map String × Sender P
  learn unit hostname (ok base) (cache, s) = (insert hostname base cache, s)
  learn unit hostname (err reason) (cache, s) = (cache, notify unit (concat "@" hostname) reason s)

  -- One discovery request for each host
  unfoldable pub discover_hosts :
      SemanticUnit P → Map (List AgentAddress) → Map String × Sender P → Map String × Sender P
  discover_hosts unit [] c = c
  discover_hosts unit ((hostname, addrs) ∷ hosts) c =
      discover_hosts unit hosts (learn unit hostname (discovered_base hostname (first_url addrs)) c)

  unfoldable pub push_to_addresses :
      SemanticUnit P → String → List AgentAddress → Sender P → Sender P
  push_to_addresses unit api_base [] s = s
  push_to_addresses unit api_base (a ∷ addrs) s =
      push_to_addresses unit api_base addrs
        (push_to_inbox unit (inbox_url (P.trim_end_matches "/") net.encode a api_base) s)

  abbrev pub push_to_host : SemanticUnit P → Option String → List AgentAddress → Sender P → Sender P
  push_to_host unit none addrs s = s
  push_to_host unit (some api_base) addrs s = push_to_addresses unit api_base addrs s

  unfoldable pub push_to_hosts :
      SemanticUnit P → Map String → Map (List AgentAddress) → Sender P → Sender P
  push_to_hosts unit cache [] s = s
  push_to_hosts unit cache ((hostname, addrs) ∷ hosts) s =
      push_to_hosts unit cache hosts (push_to_host unit (lookup hostname cache) addrs s)

  -- The part behind the `match`, for limited units
  unfoldable pub push_to_audience : SemanticUnit P → Sender P → Sender P
  push_to_audience unit s =
      let hosts = group_by_hostname (unwrap_or unit.audience []) [] in
      let found = discover_hosts unit hosts ([], s) in push_to_hosts unit found.0 hosts found.1

  abbrev pub remote_as : SemanticUnit P → Visibility → Sender P → Sender P
  remote_as unit public s = s
  remote_as unit network s = elim (list_followers P unit.author s.storage).0 [
    | err e ↦ s
    | ok followers ↦ push_to_followers unit followers s
  ]
  remote_as unit limited s = push_to_audience unit s

  unfoldable pub remote_fanout : SemanticUnit P → Sender P → Sender P
  remote_fanout unit s = remote_as unit (effective_visibility unit) s

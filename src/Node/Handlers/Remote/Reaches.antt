-- ===== src/Node/Handlers/Remote/Reaches.antt =====
-- Which inboxes `remote_fanout` of packages/node/src/handlers/units.rs posts a unit to.
use symantic_weft.Prelude.{
  ℕ, true, false, some, List, [], String, ◌≡◌, refl, ap, sym, ◌∙◌, ◌⊎◌, Among, starts_with,
  has_char, unwrap_or, ok,
}
use symantic_weft.Prelude.Map.{lookup}
use symantic_weft.Platform.{Platform}
use symantic_weft.Core.Types.{
  SemanticUnit, Visibility, public, network, limited, effective_visibility,
}
use symantic_weft.NodeApi.{AgentProfile}
use symantic_weft.AgentCore.Address.{AgentAddress, parse_address, well_known_url, inbox_url}
use symantic_weft.Node.Memory.{Inner}
use symantic_weft.Node.Memory.Follows.{list_followers}
use symantic_weft.Node.Memory.Follows.Laws.{Among-firsts_iff}
use symantic_weft.Node.Handlers.Remote.{
  Internet, Sender, group_by_hostname, discovered_base, discover_hosts, push_to_audience, remote_as,
  remote_fanout,
}
use symantic_weft.Node.Handlers.Remote.Steps.{
  Keeps, Posts, Posts-refl, Posts-trans, push_to_followers-Posts, discover_hosts-Posts,
  push_to_hosts-Posts,
}
use symantic_weft.Node.Handlers.Remote.Groups.{
  host_url, IsAudienceAddress, IsGrouped, IsDiscovered, IsHosted, Discovered,
  group_by_hostname-IsGrouped, group_by_hostname-IsHosted, discover_hosts-IsDiscovered,
}

module _ (P : Platform) (net : Internet) (node_did base : String) where
  -- The inbox of a registered follower, on another node
  abbrev pub IsRemoteFollower : Inner P → String → String → Type 0
  IsRemoteFollower s author url =
      (did : String) × Among (did, author) s.follows
      × (profile : AgentProfile P) × (lookup did s.agents ≡ some profile)
      × (profile.inbox_url ≡ url)
      × (starts_with url base ≡ false)

  -- The inbox of an audience entry with an `@`, at the address that its own host announces
  abbrev pub IsRemoteAudience : List String → String → Type 0
  IsRemoteAudience audience url =
      (entry : String) × Among entry audience
      × (has_char b'@' entry ≡ true)
      × (a : AgentAddress) × (parse_address P.trim entry ≡ ok a)
      × (api_base : String) × (discovered_base P net node_did base a.hostname (well_known_url a)
          ≡ ok api_base)
      × (inbox_url (P.trim_end_matches "/") net.encode a api_base ≡ url)

  -- The inboxes that a unit of this visibility may be posted to
  abbrev pub IsMeant : Inner P → SemanticUnit P → Visibility → String → Type 0
  IsMeant s u public url = ⊥
  IsMeant s u network url = IsRemoteFollower s u.author url
  IsMeant s u limited url = IsRemoteAudience (unwrap_or u.audience []) url

  push_to_audience-Posts :
      (u : SemanticUnit P) (s : Sender P)
      → Posts P net node_did base
          (IsRemoteAudience (unwrap_or u.audience []))
          s
          (push_to_audience P net node_did base u s)
  unfolding lookup push_to_audience IsGrouped IsDiscovered IsHosted Discovered IsAudienceAddress
      well_known_url
  push_to_audience-Posts u s =
      let audience = unwrap_or u.audience [] in
      let hosts = group_by_hostname P net node_did base audience [] in
      let grouped : IsGrouped P net node_did base audience hosts =
        group_by_hostname-IsGrouped P net node_did base audience audience [] (λ e h. h)
          (λ h l a i j. absurd i) in
      let hosted : IsHosted P net node_did base hosts =
        group_by_hostname-IsHosted P net node_did base audience [] (λ h l i. absurd i) in
      let found : IsDiscovered P net node_did base hosts
          (discover_hosts P net node_did base u hosts ([], s)).0 =
        discover_hosts-IsDiscovered P net node_did base u hosts hosts ([], s) (λ e h. h)
          (λ h b e. cc) in
      Posts-trans P net node_did base _ s _ _
        (discover_hosts-Posts P net node_did base _ u hosts ([], s))
        (push_to_hosts-Posts P net node_did base _ u _ hosts _ (λ h addrs a api_base i j e.
          let (same, (entry, m, at, parses)) = grouped h addrs a i j in
          let (others, k, known) = found h api_base e in
          (
            entry,
            m,
            at,
            a,
            parses,
            api_base,
            (λ x. discovered_base P net node_did base (same x) (host_url (same x)))
                ∙ ap (discovered_base P net node_did base h) (sym (hosted h others k))
                ∙ known,
            refl,
          )))

  remote_as-Posts :
      (u : SemanticUnit P) (v : Visibility) (s : Sender P)
      → Posts P net node_did base (IsMeant s.storage u v) s (remote_as P net node_did base u v s)
  unfolding list_followers
  remote_as-Posts u public s = Posts-refl P net node_did base _ s
  remote_as-Posts u network s =
      push_to_followers-Posts P net node_did base _ u _ s (λ did profile m e b.
        (did, (Among-firsts_iff did u.author s.storage.follows).0 m, profile, e, refl, b))
  remote_as-Posts u limited s = push_to_audience-Posts u s

-- Every inbox that `remote_fanout` posts a unit to is one that its visibility allows: none for a
-- public unit; for a network unit the inbox of a registered follower of the author, at a URL that
-- does not start with this node's base; for a limited unit the inbox of an entry of the audience
-- with an `@`, at the base that the entry's own host announces in its discovery document. Of the
-- storage, which is in memory, nothing but inboxes changes.
pub remote_fanout-IsMeant :
    (P : Platform) (net : Internet) (node_did base : String) (u : SemanticUnit P) (s : Sender P)
    → let t = remote_fanout P net node_did base u s in
      ((url : String) (n : ℕ)
        → Among (url, n) t.posted
        → Among (url, n) s.posted
          ⊎ IsMeant P net node_did base s.storage u (effective_visibility u) url)
      × Keeps P net node_did base s t
unfolding remote_fanout
remote_fanout-IsMeant P net node_did base u s =
    let posts = remote_as-Posts P net node_did base u (effective_visibility u) s in
    (λ url n h. posts.only (url, n) h, posts.keeps)

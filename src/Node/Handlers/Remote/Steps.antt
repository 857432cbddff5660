-- ===== src/Node/Handlers/Remote/Steps.antt =====
-- The posts of `remote_fanout` of packages/node/src/handlers/units.rs, step by step.
use symantic_weft.Prelude.{
  ℕ, false, Option, none, some, List, [], ◌∷◌, ◌++◌, String, concat, ◌≡◌, refl, ap, sym, ◌∙◌, ◌⊎◌,
  inl, inr, Bool-cases, Option-cases, subst, Among, Among-append, starts_with, ok, err, Result,
  is_some,
}
use symantic_weft.Prelude.Map.{Map, lookup}
use symantic_weft.Platform.{Platform}
use symantic_weft.Core.Types.{SemanticUnit}
use symantic_weft.NodeApi.{AgentProfile}
use symantic_weft.AgentCore.Address.{AgentAddress, inbox_url}
use symantic_weft.Node.Memory.{Inner}
use symantic_weft.Node.Memory.Instance.{memory}
use symantic_weft.Node.Memory.Agents.{get_agent}
use symantic_weft.Node.Memory.Settings.{deliver_to_inbox}
use symantic_weft.Node.Handlers.Units.Fanout.{notify_author_of_failure}
use symantic_weft.Node.Handlers.Remote.{
  Internet, Sender, notify, report, push_to_inbox, push_to_follower, push_to_followers, learn,
  discover_hosts, push_to_addresses, push_to_host, push_to_hosts,
}

module _ {P : Platform} where
  -- All of the storage but the inboxes is the same.
  pub record SameButInbox (s t : Inner P) : Type 0 where
    pub units : t.units ≡ s.units
    pub unit_credibility : t.unit_credibility ≡ s.unit_credibility
    pub agents : t.agents ≡ s.agents
    pub follows : t.follows ≡ s.follows
    pub peers : t.peers ≡ s.peers
    pub cursors : t.cursors ≡ s.cursors
    pub node_config : t.node_config ≡ s.node_config

  SameButInbox-refl : (s : Inner P) → SameButInbox s s
  SameButInbox-refl s = record {
    units = refl;
    unit_credibility = refl;
    agents = refl;
    follows = refl;
    peers = refl;
    cursors = refl;
    node_config = refl;
  }

  SameButInbox-trans : (s t u : Inner P) → SameButInbox s t → SameButInbox t u → SameButInbox s u
  SameButInbox-trans s t u h k = record {
    units = k.units ∙ h.units;
    unit_credibility = k.unit_credibility ∙ h.unit_credibility;
    agents = k.agents ∙ h.agents;
    follows = k.follows ∙ h.follows;
    peers = k.peers ∙ h.peers;
    cursors = k.cursors ∙ h.cursors;
    node_config = k.node_config ∙ h.node_config;
  }

  notice_keeps :
      (fresh now node_did recipient reason : String) (u : SemanticUnit P) (s : Inner P)
      → SameButInbox s
          (notify_author_of_failure P (memory P) fresh now node_did u recipient reason s).1
  unfolding notify_author_of_failure deliver_to_inbox get_agent
  notice_keeps fresh now node_did recipient reason u s =
      elim (Bool-cases (is_some (lookup u.author s.agents))) [
        | inl b ↦
            rw (b, notify_author_of_failure)
              (record {
                units = refl;
                unit_credibility = refl;
                agents = refl;
                follows = refl;
                peers = refl;
                cursors = refl;
                node_config = refl;
              })
        | inr b ↦ rw (b, notify_author_of_failure) (SameButInbox-refl s)
      ]

module _ (P : Platform) (net : Internet) (node_did base : String) where
  -- What a step of the fan-out leaves alone: the storage but for the inboxes
  abbrev pub Keeps : Sender P → Sender P → Type 0
  Keeps s t = SameButInbox s.storage t.storage

  -- A step that posts to inboxes of which `Q` holds, and changes nothing but inboxes
  pub record Posts (Q : String → Type 0) (s t : Sender P) : Type 0 where
    pub keeps : Keeps s t
    pub only : (p : String × ℕ) → Among p t.posted → Among p s.posted ⊎ Q p.0

  pub Posts-refl : (Q : String → Type 0) (s : Sender P) → Posts Q s s
  Posts-refl Q s = record { keeps = SameButInbox-refl s.storage; only = λ p h. inl h }

  pub Posts-trans :
      (Q : String → Type 0) (s t u : Sender P) → Posts Q s t → Posts Q t u → Posts Q s u
  Posts-trans Q s t u h k = record {
    keeps = SameButInbox-trans s.storage t.storage u.storage h.keeps k.keeps;
    only = λ p m. elim (k.only p m) [ inl n ↦ h.only p n | inr q ↦ inr q ];
  }

  notify-Posts :
      (Q : String → Type 0) (u : SemanticUnit P) (recipient reason : String) (s : Sender P)
      → Posts Q s (notify P net node_did base u recipient reason s)
  unfolding notify
  notify-Posts Q u recipient reason s = record {
    keeps =
        notice_keeps (net.fresh_id s.notices) (net.clock s.notices) node_did recipient reason u
          s.storage;
    only = λ p h. inl h;
  }

  report-Posts :
      (Q : String → Type 0) (u : SemanticUnit P) (url : String) (e : Option String) (s : Sender P)
      → Posts Q s (report P net node_did base u url e s)
  report-Posts Q u url none s = Posts-refl Q s
  report-Posts Q u url (some reason) s = notify-Posts Q u url reason s

  logged-Posts :
      (Q : String → Type 0) (url : String) (n : ℕ) (s : Sender P)
      → Q url
      → Posts Q s (record s { posted = s.posted ++ ((url, n) ∷ []) })
  logged-Posts Q url n s q = record {
    keeps = SameButInbox-refl s.storage;
    only = λ p h. elim (Among-append p s.posted ((url, n) ∷ []) h) [
      | inl m ↦ inl m
      | inr (inl e) ↦ inr (subst (λ (x : String × ℕ). Q x.0) (sym e) q)
      | inr (inr e) ↦ absurd e
    ];
  }

  push_to_inbox-Posts :
      (Q : String → Type 0) (u : SemanticUnit P) (url : String) (s : Sender P)
      → Q url
      → Posts Q s (push_to_inbox P net node_did base u url s)
  unfolding push_to_inbox
  push_to_inbox-Posts Q u url s q = elim (Bool-cases (net.is_url url)) [
    | inl b ↦
        rw (b, push_to_inbox)
          (Posts-trans Q s _ _ (logged-Posts Q url _ s q) (report-Posts Q u url _ _))
    | inr b ↦ rw (b, push_to_inbox) (Posts-refl Q s)
  ]

  push_to_follower-Posts :
      (Q : String → Type 0) (u : SemanticUnit P) (did : String) (s : Sender P)
      → ((profile : AgentProfile P)
          → lookup did s.storage.agents ≡ some profile
          → starts_with profile.inbox_url base ≡ false
          → Q profile.inbox_url)
      → Posts Q s (push_to_follower P net node_did base u did s)
  unfolding push_to_follower get_agent
  push_to_follower-Posts Q u did s q = elim (Option-cases (lookup did s.storage.agents)) [
    | inl e ↦ rw (e, push_to_follower) (Posts-refl Q s)
    | inr (profile, e) ↦ elim (Bool-cases (starts_with profile.inbox_url base)) [
      | inl b ↦ rw (e, b, push_to_follower) (Posts-refl Q s)
      | inr b ↦
          rw (e, b, push_to_follower) (push_to_inbox-Posts Q u profile.inbox_url s (q profile e b))
    ]
  ]

  pub push_to_followers-Posts :
      (Q : String → Type 0) (u : SemanticUnit P) (dids : List String) (s : Sender P)
      → ((did : String) (profile : AgentProfile P)
          → Among did dids
          → lookup did s.storage.agents ≡ some profile
          → starts_with profile.inbox_url base ≡ false
          → Q profile.inbox_url)
      → Posts Q s (push_to_followers P net node_did base u dids s)
  unfolding push_to_followers
  push_to_followers-Posts Q u [] s q = Posts-refl Q s
  push_to_followers-Posts Q u (did ∷ dids) s q =
      let first = push_to_follower-Posts Q u did s (λ p. q did p (inl refl)) in
      let t = push_to_follower P net node_did base u did s in
      Posts-trans Q s t _ first (
        push_to_followers-Posts Q u dids t
          (λ d p m e. q d p (inr m) (ap (lookup d) (sym first.keeps.agents) ∙ e)))

  learn-Posts :
      (Q : String → Type 0) (u : SemanticUnit P) (h : String) (r : Result String String)
      (c : Map String × Sender P)
      → Posts Q c.1 (learn P net node_did base u h r c).1
  learn-Posts Q u h (ok b) (cache, s) = Posts-refl Q s
  learn-Posts Q u h (err x) (cache, s) = notify-Posts Q u (concat "@" h) x s

  pub discover_hosts-Posts :
      (Q : String → Type 0) (u : SemanticUnit P) (hosts : Map (List AgentAddress))
      (c : Map String × Sender P)
      → Posts Q c.1 (discover_hosts P net node_did base u hosts c).1
  unfolding discover_hosts
  discover_hosts-Posts Q u [] c = Posts-refl Q c.1
  discover_hosts-Posts Q u ((h, addrs) ∷ hosts) c =
      Posts-trans Q _ _ _ (learn-Posts Q u h _ c) (discover_hosts-Posts Q u hosts _)

  push_to_addresses-Posts :
      (Q : String → Type 0) (u : SemanticUnit P) (api_base : String) (addrs : List AgentAddress)
      (s : Sender P)
      → ((a : AgentAddress)
          → Among a addrs
          → Q (inbox_url (P.trim_end_matches "/") net.encode a api_base))
      → Posts Q s (push_to_addresses P net node_did base u api_base addrs s)
  unfolding push_to_addresses
  push_to_addresses-Posts Q u api_base [] s q = Posts-refl Q s
  push_to_addresses-Posts Q u api_base (a ∷ addrs) s q =
      Posts-trans Q _ _ _ (push_to_inbox-Posts Q u _ s (q a (inl refl)))
        (push_to_addresses-Posts Q u api_base addrs _ (λ b i. q b (inr i)))

  pub push_to_hosts-Posts :
      (Q : String → Type 0) (u : SemanticUnit P) (cache : Map String)
      (hosts : Map (List AgentAddress)) (s : Sender P)
      → ((h : String) (addrs : List AgentAddress) (a : AgentAddress) (api_base : String)
          → Among (h, addrs) hosts
          → Among a addrs
          → lookup h cache ≡ some api_base
          → Q (inbox_url (P.trim_end_matches "/") net.encode a api_base))
      → Posts Q s (push_to_hosts P net node_did base u cache hosts s)
  unfolding push_to_hosts
  push_to_hosts-Posts Q u cache [] s q = Posts-refl Q s
  push_to_hosts-Posts Q u cache ((h, addrs) ∷ hosts) s q =
      Posts-trans Q _ _ _ (at_host (lookup h cache) refl)
        (push_to_hosts-Posts Q u cache hosts _ (λ k l a b i. q k l a b (inr i)))
    where
      at_host :
          (o : Option String)
          → lookup h cache ≡ o
          → Posts Q s (push_to_host P net node_did base u o addrs s)
      at_host none e = Posts-refl Q s
      at_host (some api_base) e =
          push_to_addresses-Posts Q u api_base addrs s (λ a i. q h addrs a api_base (inl refl) i e)

-- ===== src/Node/Handlers/Remote/Groups.antt =====
-- The audience of `remote_fanout` of packages/node/src/handlers/units.rs grouped by host.
use mathlib.Core.Option.{some-injective}
use symantic_weft.Prelude.{
  Bool, true, false, Option, none, some, List, [], ◌∷◌, ◌++◌, String, ◌==◌, concat, ◌≡◌, refl, ap,
  sym, ◌∙◌, ◌⊎◌, inl, inr, Bool-cases, Option-cases, subst, Among, Among-append, has_char,
  unwrap_or, ok, err, Result, eq_iff, if◌then◌else◌,
}
use symantic_weft.Prelude.Map.{Map, lookup, insert, lookup-insert, lookup-Among}
use symantic_weft.Platform.{Platform}
use symantic_weft.Core.Types.{SemanticUnit}
use symantic_weft.AgentCore.Address.{AgentAddress, AddressError, parse_address, well_known_url}
use symantic_weft.Node.Handlers.Remote.{
  Internet, Sender, add_address, add_parsed, group_by_hostname, discovered_base, first_url, learn,
  discover_hosts,
}

-- The discovery document of a host
abbrev pub host_url : String → String
host_url h = concat "https://" (concat h "/.well-known/semanticweft")

module _ (P : Platform) (net : Internet) (node_did base : String) where
  -- An address that stands in the audience
  unfoldable pub IsAudienceAddress : List String → AgentAddress → Type 0
  IsAudienceAddress audience a =
      (entry : String) × Among entry audience
      × (has_char b'@' entry ≡ true)
      × (parse_address P.trim entry ≡ ok a)

  -- The groups hold addresses of the audience, each under its host.
  unfoldable pub IsGrouped : List String → Map (List AgentAddress) → Type 0
  IsGrouped audience m =
      (h : String) (addrs : List AgentAddress) (a : AgentAddress)
      → Among (h, addrs) m
      → Among a addrs
      → (a.hostname ≡ h) × IsAudienceAddress audience a

  insert-Among :
      {V : Type 0} (k : String) (v : V) (m : Map V) (e : String × V)
      → Among e (insert k v m)
      → (e ≡ (k, v)) ⊎ Among e m
  unfolding insert
  insert-Among k v [] e (inl h) = inl h
  insert-Among k v [] e (inr h) = absurd h
  insert-Among {V} k v ((j, w) ∷ m) e h = split (j == k) (insert-Among k v m e) h
    where
      split :
          (b : Bool)
          → (Among e (insert k v m) → (e ≡ (k, v)) ⊎ Among e m)
          → Among e (if b then (k, v) ∷ m else (j, w) ∷ insert k v m)
          → (e ≡ (k, v)) ⊎ Among e ((j, w) ∷ m)
      split true ih (inl x) = inl x
      split true ih (inr x) = inr (inr x)
      split false ih (inl x) = inr (inl x)
      split false ih (inr x) = elim (ih x) [ inl y ↦ inl y | inr y ↦ inr (inr y) ]

  add_address-IsGrouped :
      (audience : List String) (a : AgentAddress) (m : Map (List AgentAddress))
      → IsAudienceAddress audience a
      → IsGrouped audience m
      → IsGrouped audience (add_address P net node_did base a m)
  unfolding add_address IsGrouped
  add_address-IsGrouped audience a m q g h addrs b i j =
      elim (insert-Among a.hostname (old ++ (a ∷ [])) m (h, addrs) i) [
        | inl e ↦
            elim (Among-append b old (a ∷ [])
              (subst (λ (x : String × List AgentAddress). Among b x.1) e j)) [
                | inl k ↦ known (ap (λ (x : String × List AgentAddress). x.0) e) k
                | inr (inl k) ↦ (
                  ap (λ (x : AgentAddress). x.hostname) k
                      ∙ sym (ap (λ (x : String × List AgentAddress). x.0) e),
                  subst (IsAudienceAddress audience) (sym k) q,
                )
                | inr (inr k) ↦ absurd k
              ]
        | inr e ↦ g h addrs b e j
      ]
    where
      old : List AgentAddress
      old = unwrap_or (lookup a.hostname m) []

      known :
          h ≡ a.hostname
          → Among b (unwrap_or (lookup a.hostname m) [])
          → (b.hostname ≡ h) × IsAudienceAddress audience b
      known e k = elim (Option-cases (lookup a.hostname m)) [
        | inl n ↦ absurd (subst (λ o. Among b (unwrap_or o [])) n k)
        | inr (l, n) ↦
            let (x, y) =
              g a.hostname l b (lookup-Among a.hostname l m n)
                (subst (λ o. Among b (unwrap_or o [])) n k) in
            (x ∙ sym e, y)
      ]

  pub group_by_hostname-IsGrouped :
      (audience rest : List String) (m : Map (List AgentAddress))
      → ((e : String) → Among e rest → Among e audience)
      → IsGrouped audience m
      → IsGrouped audience (group_by_hostname P net node_did base rest m)
  unfolding group_by_hostname IsAudienceAddress
  group_by_hostname-IsGrouped audience [] m sub g = g
  group_by_hostname-IsGrouped audience (entry ∷ rest) m sub g =
      elim (Bool-cases (has_char b'@' entry)) [
        | inl b ↦ rw b (
            parsed (parse_address P.trim entry) refl b
              (λ n. group_by_hostname-IsGrouped audience rest n (λ e h. sub e (inr h))))
        | inr b ↦ rw b (group_by_hostname-IsGrouped audience rest m (λ e h. sub e (inr h)) g)
      ]
    where
      parsed :
          (r : Result AgentAddress AddressError)
          → parse_address P.trim entry ≡ r
          → has_char b'@' entry ≡ true
          → ((n : Map (List AgentAddress))
              → IsGrouped audience n
              → IsGrouped audience (group_by_hostname P net node_did base rest n))
          → IsGrouped audience
              (group_by_hostname P net node_did base rest (add_parsed P net node_did base r m))
      parsed (ok a) e b next =
          next _ (add_address-IsGrouped audience a m (entry, sub entry (inl refl), b, e) g)
      parsed (err x) e b next = next m g

  unfoldable pub Discovered : String → List AgentAddress → String → Type 0
  Discovered h addrs api_base =
      discovered_base P net node_did base h (first_url P net node_did base addrs) ≡ ok api_base

  -- The cache holds what the hosts of some groups announced.
  unfoldable pub IsDiscovered : Map (List AgentAddress) → Map String → Type 0
  IsDiscovered m cache =
      (h api_base : String)
      → lookup h cache ≡ some api_base
      → (addrs : List AgentAddress) × Among (h, addrs) m × Discovered h addrs api_base

  learn-IsDiscovered :
      (u : SemanticUnit P) (m : Map (List AgentAddress)) (h : String) (addrs : List AgentAddress)
      (r : Result String String) (c : Map String × Sender P)
      → Among (h, addrs) m
      → discovered_base P net node_did base h (first_url P net node_did base addrs) ≡ r
      → IsDiscovered m c.0
      → IsDiscovered m (learn P net node_did base u h r c).0
  unfolding IsDiscovered Discovered
  learn-IsDiscovered u m h addrs (err x) c i e d = d
  learn-IsDiscovered u m h addrs (ok b) (cache, s) i e d = λ k api_base f.
      elim (Bool-cases (h == k)) [
        | inl x ↦
            let same : h ≡ k = (eq_iff h k).0 x in
            let found : some b ≡ some api_base =
              ap (λ t. if t then some b else lookup k cache) (sym x)
              ∙ sym (lookup-insert h k b cache)
              ∙ f in
            (
              addrs,
              subst (λ n. Among (n, addrs) m) same i,
              subst
                  (λ n.
                    discovered_base P net node_did base n (first_url P net node_did base addrs)
                    ≡ ok api_base)
                  same (e ∙ ap ok (some-injective b api_base found)),
            )
        | inr x ↦ d k api_base (
            ap (λ t. if t then some b else lookup k cache) (sym x)
            ∙ sym (lookup-insert h k b cache)
            ∙ f)
      ]

  pub discover_hosts-IsDiscovered :
      (u : SemanticUnit P) (m hosts : Map (List AgentAddress)) (c : Map String × Sender P)
      → ((e : String × List AgentAddress) → Among e hosts → Among e m)
      → IsDiscovered m c.0
      → IsDiscovered m (discover_hosts P net node_did base u hosts c).0
  unfolding discover_hosts
  discover_hosts-IsDiscovered u m [] c sub d = d
  discover_hosts-IsDiscovered u m ((h, addrs) ∷ hosts) c sub d =
      discover_hosts-IsDiscovered u m hosts _ (λ e i. sub e (inr i))
        (learn-IsDiscovered u m h addrs _ c (sub (h, addrs) (inl refl)) refl d)

  -- Each group is asked for at its own host.
  unfoldable pub IsHosted : Map (List AgentAddress) → Type 0
  IsHosted m =
      (h : String) (addrs : List AgentAddress)
      → Among (h, addrs) m
      → first_url P net node_did base addrs ≡ host_url h

  first_url-append :
      (addrs : List AgentAddress) (a : AgentAddress)
      → (addrs ≡ []) ⊎ (first_url P net node_did base addrs ≡ host_url a.hostname)
      → first_url P net node_did base (addrs ++ (a ∷ [])) ≡ host_url a.hostname
  unfolding well_known_url
  first_url-append [] a h = refl
  first_url-append (b ∷ addrs) a (inl h) = cc
  first_url-append (b ∷ addrs) a (inr h) = h

  add_address-IsHosted :
      (a : AgentAddress) (m : Map (List AgentAddress))
      → IsHosted m
      → IsHosted (add_address P net node_did base a m)
  unfolding add_address IsHosted
  add_address-IsHosted a m g h addrs i =
      let old = unwrap_or (lookup a.hostname m) [] in
      elim (insert-Among a.hostname (old ++ (a ∷ [])) m (h, addrs) i) [
        | inl e ↦
            ap (λ (x : String × List AgentAddress). first_url P net node_did base x.1) e
            ∙ first_url-append old a (start (lookup a.hostname m) refl)
            ∙ ap (λ (x : String × List AgentAddress). host_url x.0) (sym e)
        | inr e ↦ g h addrs e
      ]
    where
      start :
          (o : Option (List AgentAddress))
          → lookup a.hostname m ≡ o
          → (unwrap_or o [] ≡ [])
            ⊎ (first_url P net node_did base (unwrap_or o []) ≡ host_url a.hostname)
      start none e = inl refl
      start (some l) e = inr (g a.hostname l (lookup-Among a.hostname l m e))

  pub group_by_hostname-IsHosted :
      (rest : List String) (m : Map (List AgentAddress))
      → IsHosted m
      → IsHosted (group_by_hostname P net node_did base rest m)
  unfolding group_by_hostname
  group_by_hostname-IsHosted [] m g = g
  group_by_hostname-IsHosted (entry ∷ rest) m g = elim (Bool-cases (has_char b'@' entry)) [
    | inl b ↦ rw b (group_by_hostname-IsHosted rest _ (parsed (parse_address P.trim entry)))
    | inr b ↦ rw b (group_by_hostname-IsHosted rest m g)
  ]
    where
      parsed :
          (r : Result AgentAddress AddressError) → IsHosted (add_parsed P net node_did base r m)
      parsed (ok a) = add_address-IsHosted a m g
      parsed (err x) = g

-- ===== src/Node/Handlers/WebFinger/Resolved.antt =====
-- What packages/node/src/handlers/webfinger.rs resolves.
use Prim.Native.String.append
use mathlib.Core.Option.{some-injective}
use text.Mathlib.TextEquality.{starts_with_iff}
use symantic_weft.Prelude.{
  true, false, Option, none, some, Option-cases, Bool-cases, ◌⊎◌, inl, inr, String, has_char,
  concat, starts_with, strip_prefix, is_some, ok, ◌≢◌, ◌≡◌, ◌↔◌, refl, ap, sym, ◌∙◌,
}
use symantic_weft.Prelude.Map.{lookup}
use symantic_weft.Prelude.Text.Prefix.{strip_prefix-concat, strip_prefix_sound, strip_prefix-other}
use symantic_weft.Platform.{Platform}
use symantic_weft.NodeApi.{AgentProfile}
use symantic_weft.AgentCore.Address.{split_last}
use symantic_weft.AgentCore.Address.Last.{split_last-AreParts}
use symantic_weft.AgentCore.Address.RoundTrip.{split_last-concat}
use symantic_weft.Node.Memory.Agents.{get_agent}
use symantic_weft.Node.State.{NodeConfig, AppState}
use symantic_weft.Node.Handlers.WebFinger.{Jrd, descriptor, address_of, webfinger}

-- The text names a DID of a registered agent and some host, with or without `acct:`.
abbrev pub IsResolved :
    (P : Platform) → (String → String) → NodeConfig P → AppState P → Option String → Jrd → Type 0
IsResolved P encode config s resource jrd =
    (did : String) × (host : String) × (has_char b'@' host ≡ false)
    × (starts_with did "did:" ≡ true)
    × (is_some (lookup did s.storage.agents) ≡ true)
    × ((resource ≡ some (concat did (concat "@" host)))
        ⊎ (resource ≡ some (concat "acct:" (concat did (concat "@" host)))))
    × (jrd ≡ descriptor encode config.api_base did (concat did (concat "@" host)))

address_of-stripped : (address : String) → address_of (concat "acct:" address) ≡ address
unfolding address_of
address_of-stripped address = rw (strip_prefix-concat "acct:" address, address_of) refl

address_of-plain : (text : String) → strip_prefix "acct:" text ≡ none → address_of text ≡ text
unfolding address_of
address_of-plain text h = rw (h, address_of) refl

-- A text that starts with `did:` has no prefix to take off.
plain_did :
    (did rest : String)
    → starts_with did "did:" ≡ true
    → strip_prefix "acct:" (concat did rest) ≡ none
plain_did did rest h =
    let (tail, e) = (starts_with_iff did "did:").0 h in
    ap (λ x. strip_prefix "acct:" (concat x rest)) (sym e ∙ append.cons "d" "id:" tail)
    ∙ ap (strip_prefix "acct:") (append.cons "d" (concat "id:" tail) rest)
    ∙ strip_prefix-other "a" "d" "cct:" (concat (concat "id:" tail) rest) refl

address_of-cases :
    (text : String) → (text ≡ address_of text) ⊎ (text ≡ concat "acct:" (address_of text))
unfolding address_of
address_of-cases text = elim (Option-cases (strip_prefix "acct:" text)) [
  | inl e ↦ inl (sym (address_of-plain text e))
  | inr (address, e) ↦
      inr
        (strip_prefix_sound "acct:" text address e ∙ ap (concat "acct:") (rw (e, address_of) refl))
]

module _ (P : Platform) (encode : String → String) (config : NodeConfig P) (s : AppState P) where
  module _ (text did host : String) (e : split_last b'@' (address_of text) ≡ some (did, host)) where
    webfinger-found :
        (profile : AgentProfile P)
        → starts_with did "did:" ≡ true
        → lookup did s.storage.agents ≡ some profile
        → webfinger P encode config (record { resource = some text }) s
          ≡ (ok (descriptor encode config.api_base did (address_of text)), s)
    unfolding webfinger get_agent
    webfinger-found profile d known = rw (e, d, known, webfinger, get_agent) refl

  -- The parts of an address that was resolved
  abbrev HasParts : String → Jrd → Type 0
  HasParts text jrd =
      (did : String) × (host : String) × (split_last b'@' (address_of text) ≡ some (did, host))
      × (starts_with did "did:" ≡ true)
      × (is_some (lookup did s.storage.agents) ≡ true)
      × (jrd ≡ descriptor encode config.api_base did (address_of text))

  webfinger-HasParts :
      (text : String) (jrd : Jrd)
      → webfinger P encode config (record { resource = some text }) s ≡ (ok jrd, s)
      → HasParts text jrd
  unfolding webfinger get_agent
  webfinger-HasParts text jrd h = elim (Option-cases (split_last b'@' (address_of text))) [
    | inl e ↦ cc (rw (e, webfinger) at h)
    | inr ((did, host), e) ↦ elim (Bool-cases (starts_with did "did:")) [
      | inr d ↦ cc (rw (e, d, webfinger) at h)
      | inl d ↦ elim (Option-cases (lookup did s.storage.agents)) [
        | inl k ↦ cc (rw (e, d, k, webfinger, get_agent) at h)
        | inr (profile, k) ↦
            (did, host, e, d, rw k refl, cc (webfinger-found text did host e profile d k))
      ]
    ]
  ]

  webfinger-missing :
      (jrd : Jrd) → webfinger P encode config (record { resource = none }) s ≢ (ok jrd, s)
  unfolding webfinger
  webfinger-missing jrd h = cc

  -- An address that is parsed back to its parts is answered.
  webfinger-resolves :
      (text did host : String)
      → address_of text ≡ concat did (concat "@" host)
      → has_char b'@' host ≡ false
      → starts_with did "did:" ≡ true
      → is_some (lookup did s.storage.agents) ≡ true
      → webfinger P encode config (record { resource = some text }) s
        ≡ (ok (descriptor encode config.api_base did (concat did (concat "@" host))), s)
  webfinger-resolves text did host same plain d known =
      elim (Option-cases (lookup did s.storage.agents)) [
        | inl k ↦ cc
        | inr (profile, k) ↦
            webfinger-found text did host
              (ap (split_last b'@') same ∙ split_last-concat did host plain) profile d k
            ∙ ap (λ x. (ok (descriptor encode config.api_base did x), s)) same
      ]

  HasParts-IsResolved :
      (text : String) (jrd : Jrd) → HasParts text jrd → IsResolved P encode config s (some text) jrd
  HasParts-IsResolved text jrd (did, host, e, d, known, same) =
      let (whole, plain) = split_last-AreParts (address_of text) (did, host) e in
      (
        did,
        host,
        plain,
        d,
        known,
        elim (address_of-cases text) [
          | inl t ↦ inl (ap some (t ∙ whole))
          | inr t ↦ inr (ap some (t ∙ ap (concat "acct:") whole))
        ],
        same ∙ ap (descriptor encode config.api_base did) whole,
      )

pub webfinger_iff :
    (P : Platform) (encode : String → String) (config : NodeConfig P) (s : AppState P)
    (resource : Option String) (jrd : Jrd)
    → (webfinger P encode config (record { resource = resource }) s ≡ (ok jrd, s))
      ↔ IsResolved P encode config s resource jrd
webfinger_iff P encode config s none jrd = (
  λ h. absurd (webfinger-missing P encode config s jrd h),
  λ (did, host, plain, d, known, named, same). elim named [ inl e ↦ cc | inr e ↦ cc ],
)
webfinger_iff P encode config s (some text) jrd = (
  λ h.
      HasParts-IsResolved P encode config s text jrd
        (webfinger-HasParts P encode config s text jrd h),
  λ (did, host, plain, d, known, named, same).
      webfinger-resolves P encode config s text did host
        (elim named [
          | inl e ↦
              let t = some-injective text _ e in
              ap address_of t ∙ address_of-plain _ (plain_did did (concat "@" host) d)
          | inr e ↦ ap address_of (some-injective text _ e) ∙ address_of-stripped _
        ])
        plain d known
      ∙ ap (λ j. (ok j, s)) (sym same),
)

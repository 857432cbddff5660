-- ===== src/AgentCore/Address.antt =====
-- packages/agent-core/src/address.rs: addresses of the form `did@hostname`.
pub mod RoundTrip
pub mod Last
use Prim.Native.Char.{code}
use symantic_weft.Prelude.{
  ℕ, Option, none, some, String, ◌==◌, eqb, if◌then◌else◌, Result, ok, err, concat,
}

pub data AddressError : Type 0 where
  missing_at empty_did empty_hostname : String → AddressError

pub record AgentAddress : Type 0 where
  pub did : String
  pub hostname : String

-- `s.rfind('…')` with the texts on both sides of it
unfoldable pub split_last : ℕ → String → Option (String × String)
split_last n String.[] = none
split_last n (String.◌∷◌ c s) = elim (split_last n s) [
  | some parts ↦ some (String.◌∷◌ c parts.0, parts.1)
  | none ↦ if eqb (code c) n then some (String.[], s) else none
]

-- The checks behind the split, on the trimmed parts
abbrev pub checked_address : String → String → String → Result AgentAddress AddressError
checked_address s did hostname =
    if did == ""
    then err (empty_did s)
    else if hostname == ""
    then err (empty_hostname s)
    else ok (record { did = did; hostname = hostname })

-- `AgentAddress::parse`, given `trim`
unfoldable pub parse_address : (String → String) → String → Result AgentAddress AddressError
unfolding split_last
parse_address trim s = elim (split_last b'@' s) [
  | none ↦ err (missing_at s)
  | some parts ↦ checked_address s (trim parts.0) (trim parts.1)
]

-- `Display`
abbrev pub display_address : AgentAddress → String
display_address a = concat a.did (concat "@" a.hostname)

unfoldable pub node_url : AgentAddress → String
node_url a = concat "https://" a.hostname

unfoldable pub well_known_url : AgentAddress → String
well_known_url a = concat "https://" (concat a.hostname "/.well-known/semanticweft")

-- given `trim_end_matches('/')` and `urlencoding::encode`
unfoldable pub inbox_url : (String → String) → (String → String) → AgentAddress → String → String
inbox_url trim_slashes encode a api_base =
    concat (trim_slashes api_base) (concat "/agents/" (concat (encode a.did) "/inbox"))

unfoldable pub register_url : (String → String) → (String → String) → AgentAddress → String → String
register_url trim_slashes encode a api_base =
    concat (trim_slashes api_base) (concat "/agents/" (encode a.did))

-- ===== src/Tests/StartExamples.antt =====
-- Examples for the theorems on the start of a node, its discovery document, WebFinger and sessions.
use symantic_weft.Prelude.{
  ℕ, split_char, unwrap_or, none, some, inr, List, [], ◌∷◌, String, length, ok, ◌≡◌, refl, ap, ◌==◌,
  if◌then◌else◌,
}
use symantic_weft.Prelude.Map.{lookup}
use symantic_weft.AgentCore.Address.{
  AgentAddress, inbox_url as address_inbox_url, register_url as address_register_url,
}
use symantic_weft.AgentCore.Session.{
  Documents, NodeSession, from_discovery, inbox_url, register_url, from_discovery-urls,
}
use symantic_weft.Node.Memory.{Inner}
use symantic_weft.Node.State.{NodeConfig, AppState}
use symantic_weft.Node.Identity.{Seeds, NodeIdentity, load_or_generate}
use symantic_weft.Node.Identity.Stable.{IsSeeds, load_or_generate-stable}
use symantic_weft.Node.Config.{Environment, number, parse_unsigned, digits, bootstrap_list, u64_mod}
use symantic_weft.Node.Start.{with_identity, IsAnnounced, well_known-IsAnnounced}
use symantic_weft.Node.Handlers.Discovery.{well_known}
use symantic_weft.Node.Handlers.WebFinger.{descriptor, webfinger}
use symantic_weft.Node.Handlers.WebFinger.Resolved.{webfinger_iff}
use symantic_weft.Tests.Sample.{demo, demo_agent, demo_store, demo_state, demo_config, keep}
use symantic_weft.Tests.AuthExamples.{
  demo_library, demo-IsBase58, zeros, encode, decode, decode-encode,
}

abbrev demo_documents : Documents
demo_documents = record {
  Value = String;
  from_str = λ s. ok s;
  api_base_of = λ s. some "https://h/v1";
}

abbrev demo_address : AgentAddress
demo_address = record { did = "did:a"; hostname = "h" }

from_discovery-urls_example :
    (s : NodeSession) × (from_discovery keep demo_documents "{}" "did:a" ≡ ok s)
    × (inbox_url keep s ≡ address_inbox_url keep keep demo_address "https://h/v1")
    × (register_url keep s ≡ address_register_url keep keep demo_address "https://h/v1")
from_discovery-urls_example =
    from_discovery-urls keep keep demo_documents demo_address "{}" "https://h/v1" "{}" refl refl

abbrev head_or_zero : List ℕ → ℕ
head_or_zero [] = 0
head_or_zero (n ∷ rest) = n

abbrev demo_seeds : Seeds demo_library
demo_seeds = record {
  to_bytes = λ key. key ∷ zeros 31;
  from_bytes = head_or_zero;
  public_bytes = λ key. key ∷ zeros 31;
  hex_encode = encode;
  hex_decode = λ s. ok (decode s);
}

demo-IsSeeds : IsSeeds demo_library demo_seeds
unfolding zeros
demo-IsSeeds = record {
  size = λ key. refl;
  reads = λ key. refl;
  decodes = λ bytes. ap ok (decode-encode bytes);
}

-- the storage after a first start with the key 7
abbrev started_store : Inner demo
started_store = (load_or_generate demo_seeds demo 7 demo_store).1

no_seed : lookup "node_identity_seed" demo_store.node_config ≡ none
unfolding lookup
no_seed = refl

load_or_generate-stable_example :
    ((load_or_generate demo_seeds demo 7 demo_store).0 ≡ ok (record { signing_key = 7 }))
    × (load_or_generate demo_seeds demo 9 started_store
        ≡ (ok (record { signing_key = 7 }), started_store))
load_or_generate-stable_example =
    load_or_generate-stable demo_library demo_seeds demo 7 9 demo_store started_store demo-IsSeeds
      no_seed refl

abbrev demo_environment : Environment demo
demo_environment = record {
  var = λ name.
      if name == "SWEFT_MAX_PEERS"
      then some "+25"
      else if name == "SWEFT_BOOTSTRAP_PEERS"
      then some "https://a,,https://b"
      else none;
  parse_addr = λ s. some s;
  parse_f32 = λ s. none;
}

-- The number of peers is read with its sign, and the others keep their defaults.
demo_number : number u64_mod 100 (demo_environment.var "SWEFT_MAX_PEERS") ≡ 25
unfolding number parse_unsigned digits
demo_number = refl

demo_peers :
    bootstrap_list demo (unwrap_or (demo_environment.var "SWEFT_BOOTSTRAP_PEERS") "")
    ≡ "https://a" ∷ "https://b" ∷ []
unfolding bootstrap_list split_char
demo_peers = refl

abbrev unnamed_config : NodeConfig demo
unnamed_config = record demo_config { node_id = "__generate__" }

abbrev demo_identity : NodeIdentity demo_library
demo_identity = record { signing_key = 7 }

demo_size : length (demo_seeds.public_bytes 7) ≡ 32
unfolding zeros
demo_size = refl

well_known-IsAnnounced_example :
    IsAnnounced demo demo_seeds unnamed_config 7
      (well_known demo (with_identity demo demo_seeds unnamed_config demo_identity))
well_known-IsAnnounced_example =
    well_known-IsAnnounced demo demo_library demo_seeds unnamed_config demo_identity 7 demo-IsBase58
      demo_size refl refl

-- a node with an agent whose DID has the right form
abbrev named_state : AppState demo
named_state = record demo_state {
  storage = record demo_store { agents = ("did:a", demo_agent) ∷ [] };
}

-- the address is resolved
resolved_address :
    webfinger demo keep demo_config (record { resource = some "acct:did:a@h" }) named_state
    ≡ (ok (descriptor keep "https://n/v1" "did:a" "did:a@h"), named_state)
unfolding lookup
resolved_address =
    (webfinger_iff demo keep demo_config named_state (some "acct:did:a@h")
        (descriptor keep "https://n/v1" "did:a" "did:a@h")).1
      ("did:a", "h", refl, refl, refl, inr refl, refl)

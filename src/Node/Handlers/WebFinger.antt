-- ===== src/Node/Handlers/WebFinger.antt =====
-- packages/node/src/handlers/webfinger.rs: agent addresses resolved to profiles on this node.
pub mod Resolved
use symantic_weft.Prelude.{
  Option, List, [], ◌∷◌, String, concat, starts_with, strip_prefix, unwrap_or, require,
}
use symantic_weft.Prelude.Action.{pure, from_result, ◌>>=◌, ◌>>◌}
use symantic_weft.Platform.{Platform}
use symantic_weft.AgentCore.Address.{split_last}
use symantic_weft.Node.Memory.Agents.{get_agent}
use symantic_weft.Node.Error.{AppError}
use symantic_weft.Node.State.{NodeConfig, Handler, stored, present}

pub record WebFingerQuery : Type 0 where
  pub resource : Option String

pub record JrdLink : Type 0 where
  pub rel : String
  pub link_type : String
  pub href : String

pub record Jrd : Type 0 where
  pub subject : String
  pub links : List JrdLink

-- The answer for a DID and the address it stands in, given `urlencoding::encode`
abbrev pub descriptor : (String → String) → String → String → String → Jrd
descriptor encode api_base did address = record {
  subject = concat "acct:" address;
  links =
      record {
        rel = "self";
        link_type = "application/json";
        href = concat api_base (concat "/agents/" (encode did));
      }
      ∷ [];
}

-- The address without the optional prefix
unfoldable pub address_of : String → String
address_of resource = unwrap_or (strip_prefix "acct:" resource) resource

module _ (P : Platform) (encode : String → String) where
  abbrev refused : String → String → AppError
  refused resource why = AppError.bad_request (concat "resource " (concat (P.debug resource) why))

  -- The answer has the status 200 and the type `application/jrd+json; charset=utf-8`.
  unfoldable pub webfinger : NodeConfig P → WebFingerQuery → Handler P Jrd
  webfinger config params = do
    resource ←
        present params.resource (AppError.bad_request "missing required query parameter: resource")
    parts ←
        present (split_last b'@' (address_of resource))
          (refused resource " is not a valid agent address (expected did@host format)")
    from_result (
        require (starts_with parts.0 "did:")
          (refused resource (concat ": expected a DID before '@', got " (P.debug parts.0))))
    found ← stored (get_agent P parts.0)
    _ ←
        present found
          (AppError.not_found (concat "agent " (concat parts.0 " not found on this node")))
    pure (descriptor encode config.api_base parts.0 (address_of resource))

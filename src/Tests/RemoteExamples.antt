-- ===== src/Tests/RemoteExamples.antt =====
-- Examples for the theorems on the remote deliveries of packages/node/src/handlers/units.rs.
use symantic_weft.Prelude.{ℕ, some, none, [], ◌∷◌, String, ok, true, zero, suc, ◌⊎◌, Among}
use symantic_weft.Core.Types.{SemanticUnit, limited, effective_visibility}
use symantic_weft.Node.Handlers.Remote.{Internet, Sender, status, failed, remote_fanout}
use symantic_weft.Node.Handlers.Remote.Steps.{Keeps}
use symantic_weft.Node.Handlers.Remote.Reaches.{IsMeant, remote_fanout-IsMeant}
use symantic_weft.Tests.Sample.{demo, demo_unit, demo_store, keep}

-- The first attempt at an inbox is answered with an error of the server, the second one with success.
abbrev demo_internet : Internet
demo_internet = record {
  discover = λ url. status 200 (ok "https://h/v1");
  post = λ url n. elim n [
    | zero ↦ failed "none"
    | suc m ↦ elim m [ zero ↦ status 503 tt | suc k ↦ status 202 tt ]
  ];
  is_url = λ url. true;
  api_base_of = λ text. some text;
  encode = keep;
  fresh_id = λ n. "notice";
  clock = λ n. "now";
}

abbrev far_unit : SemanticUnit demo
far_unit = demo_unit "d" "bob" none (some limited) (some ("ann" ∷ "did@h" ∷ []))

abbrev demo_sender : Sender demo
demo_sender = record { storage = demo_store; posted = []; notices = 0 }

abbrev far_inbox : String
far_inbox = "https://h/v1/agents/did/inbox"

remote_fanout-IsMeant_example :
    ((url : String) (n : ℕ)
      → Among
          (url, n)
          (remote_fanout demo demo_internet "did:key:me" "https://n" far_unit demo_sender).posted
      → Among (url, n) demo_sender.posted
        ⊎ IsMeant demo demo_internet "did:key:me" "https://n" demo_store far_unit
            (effective_visibility far_unit)
            url)
    × Keeps demo demo_internet "did:key:me" "https://n" demo_sender
        (remote_fanout demo demo_internet "did:key:me" "https://n" far_unit demo_sender)
remote_fanout-IsMeant_example =
    remote_fanout-IsMeant demo demo_internet "did:key:me" "https://n" far_unit demo_sender

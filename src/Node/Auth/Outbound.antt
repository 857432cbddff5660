-- ===== src/Node/Auth/Outbound.antt =====
-- `build_outbound_signature` of packages/node/src/middleware/auth.rs.
use symantic_weft.Prelude.{String, concat}
use symantic_weft.Node.Auth.{Library}

-- `name="value"`
abbrev pub quoted : String → String
quoted value = concat "\"" (concat value "\"")

unfoldable pub signature_header : String → String → String
signature_header did signature = concat "keyId=" (
    concat (quoted did) (
      concat ",algorithm=\"ed25519\",headers=\"(request-target) host date\",signature="
        (quoted signature)))

-- the `Date` and `Signature` headers
unfoldable pub build_outbound_signature :
    (L : Library) → L.Instant → L.SigningKey → String → String → String → String → String × String
build_outbound_signature L now key node_did method path host =
    let date = L.fmt_http_date now in
    let text = concat "(request-target): " (
      concat method
        (concat " " (concat path (concat "\nhost: " (concat host (concat "\ndate: " date)))))) in
    (date, signature_header node_did (concat "z" (L.bs58_encode (L.sign key text))))

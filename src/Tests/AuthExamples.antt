-- ===== src/Tests/AuthExamples.antt =====
-- Examples for the theorems on packages/node/src/middleware/auth.rs.
use Prim.Native.Char.{code}
use symantic_weft.Prelude.{
  ℕ, zero, suc, ◌+◌, ◌-◌, false, none, some, List, [], ◌∷◌, String, ◌==◌, eqb, has_char, ok, ◌≡◌,
  ◌↔◌, refl, ap, ◌∙◌, arith, if◌then◌else◌,
}
use symantic_weft.Node.Auth.{
  Library, Parts, header_date, require_auth, optional_auth, node_auth, verify_node_signature,
}
use symantic_weft.Node.Identity.{did_key_from_bytes}
use symantic_weft.Node.Auth.Outbound.{build_outbound_signature}
use symantic_weft.Node.Auth.Accepted.{
  IsBase58, IsKeyPair, IsDelivered, verify_node_signature-build_outbound_signature,
}
use symantic_weft.Node.Auth.Extractors.{
  IsSigned, IsRegistered, IsOwnKey, require_auth_iff, node_auth_iff,
}
use symantic_weft.Tests.Sample.{demo, demo_store, keep}

-- An encoding of bytes without quotes: as many `1` as the byte says, and a `2`
unfoldable pub encode_byte : ℕ → String → String
encode_byte zero s = String.◌∷◌ "2" s
encode_byte (suc n) s = String.◌∷◌ "1" (encode_byte n s)

unfoldable pub encode : List ℕ → String
encode [] = ""
encode (b ∷ bytes) = encode_byte b (encode bytes)

abbrev pub bump : List ℕ → List ℕ
bump [] = []
bump (n ∷ rest) = suc n ∷ rest

unfoldable pub decode : String → List ℕ
decode String.[] = []
decode (String.◌∷◌ c s) = let rest = decode s in if eqb (code c) b'2' then 0 ∷ rest else bump rest

decode-encode_byte : (n : ℕ) (s : String) → decode (encode_byte n s) ≡ n ∷ decode s
unfolding decode encode_byte
decode-encode_byte zero s = refl
decode-encode_byte (suc n) s = ap bump (decode-encode_byte n s)

pub decode-encode : (bytes : List ℕ) → decode (encode bytes) ≡ bytes
unfolding decode encode
decode-encode [] = refl
decode-encode (b ∷ bytes) = decode-encode_byte b (encode bytes) ∙ ap (◌∷◌ b) (decode-encode bytes)

encode_byte-plain :
    (n : ℕ) (s : String) → has_char b'"' s ≡ false → has_char b'"' (encode_byte n s) ≡ false
unfolding encode_byte
encode_byte-plain zero s h = h
encode_byte-plain (suc n) s h = encode_byte-plain n s h

encode-plain : (bytes : List ℕ) → has_char b'"' (encode bytes) ≡ false
unfolding encode
encode-plain [] = refl
encode-plain (b ∷ bytes) = encode_byte-plain b (encode bytes) (encode-plain bytes)

unfoldable pub zeros : ℕ → List ℕ
zeros zero = []
zeros (suc n) = 0 ∷ zeros n

abbrev pub demo_library : Library
demo_library = record {
  lower = keep;
  Instant = ℕ;
  http_date = λ s. some 1000;
  from_timestamp = λ n. some n;
  rfc3339 = λ s. none;
  seconds_between = λ a b. (a - b) + (b - a);
  fmt_http_date = λ n. "now";
  bs58_encode = encode;
  bs58_decode = λ s. ok (decode s);
  VerifyingKey = ℕ;
  SigningKey = ℕ;
  key_from_bytes = λ bytes. ok 7;
  verify = λ key text bytes. eqb key 7;
  sign = λ key text. zeros 64;
}

pub demo-IsBase58 : IsBase58 demo_library
demo-IsBase58 = record { decodes = λ bytes. ap ok (decode-encode bytes); plain = encode-plain }

demo-IsKeyPair : IsKeyPair demo_library 7 7 (zeros 32)
unfolding zeros
demo-IsKeyPair = record {
  size = refl;
  reads = refl;
  signature_size = λ text. refl;
  verifies = λ text. refl;
}

abbrev demo_headers : String × String
demo_headers =
    build_outbound_signature demo_library 1000 7 (did_key_from_bytes demo_library (zeros 32)) "get"
      "/v1/sync" "n.example"

abbrev demo_parts : Parts
demo_parts = record {
  method = "get";
  path_and_query = some "/v1/sync";
  header = λ name.
      if name == "host"
      then some "n.example"
      else if name == "date"
      then some demo_headers.0
      else if name == "signature"
      then some demo_headers.1
      else none;
}

demo-IsDelivered :
    IsDelivered demo_library demo_parts "get" "/v1/sync" "n.example" demo_headers.0 demo_headers.1
demo-IsDelivered = record {
  same_method = refl;
  same_path = refl;
  same_host = refl;
  same_date = refl;
  same_signature = refl;
}

demo_date : header_date demo_library 1010 demo_headers.0 ≡ some 1000
unfolding header_date
demo_date = refl

verify_node_signature-build_outbound_signature_example :
    verify_node_signature demo demo_library 1010 demo_parts
    ≡ ok (did_key_from_bytes demo_library (zeros 32))
verify_node_signature-build_outbound_signature_example =
    verify_node_signature-build_outbound_signature demo demo_library (λ c s low high. refl)
      demo-IsBase58 7 7 (zeros 32) demo-IsKeyPair 1000 1010 1000 "get" "/v1/sync" "n.example"
      demo_parts demo-IsDelivered demo_date (omega arith)

require_auth_iff_example :
    ((require_auth demo demo_library 1010 demo_parts demo_store ≡ ok "ann")
      ↔ IsSigned demo demo_library 1010 demo_parts "ann"
          (IsRegistered demo demo_library demo_store))
    × ((optional_auth demo demo_library 1010 demo_parts demo_store ≡ some "ann")
        ↔ (require_auth demo demo_library 1010 demo_parts demo_store ≡ ok "ann"))
require_auth_iff_example = require_auth_iff demo demo_library 1010 demo_parts demo_store "ann"

node_auth_iff_example :
    (node_auth demo demo_library 1010 demo_parts ≡ ok tt)
    ↔ ((did : String) × IsSigned demo demo_library 1010 demo_parts did (IsOwnKey demo demo_library))
node_auth_iff_example = node_auth_iff demo demo_library 1010 demo_parts

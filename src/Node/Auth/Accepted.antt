-- ===== src/Node/Auth/Accepted.antt =====
-- A request signed by `build_outbound_signature` before `verify_node_signature`
-- (packages/node/src/middleware/auth.rs).
use text.Mathlib.TextLemmas.{append_assoc}
use symantic_weft.Prelude.{
  ℕ, ◌≤◌, true, false, some, List, [], ◌∷◌, String, concat, has_char, strip_prefix, arith, length,
  leb, ◌≡◌, refl, ap, sym, ◌∙◌, ok,
}
use symantic_weft.Platform.{Platform}
use symantic_weft.Node.Auth.{
  Library, Parts, signing_line, signing_lines, build_signing_string, header_date, validate_date,
  decode_multibase_key, check_signature, verify_node_signature, join_lines,
}
use symantic_weft.Node.Auth.Header.{ParsedSignature, parse_signature_header, strip_char}
use symantic_weft.Prelude.Text.Prefix.{strip_prefix-concat}
use symantic_weft.Node.Identity.{did_key_from_bytes}
use symantic_weft.Node.Auth.Outbound.{signature_header, build_outbound_signature}
use symantic_weft.Node.Auth.RoundTrip.{KeepsTight, parse_signature_header-outbound}
use Prim.Native.String.append

-- What base58 and Ed25519 promise
pub record IsBase58 (L : Library) : Type 0 where
  pub decodes : (bytes : List ℕ) → L.bs58_decode (L.bs58_encode bytes) ≡ ok bytes
  pub plain : (bytes : List ℕ) → has_char b'"' (L.bs58_encode bytes) ≡ false

pub record IsKeyPair (L : Library) (secret : L.SigningKey) (key : L.VerifyingKey) (bytes : List ℕ)
    : Type 0 where
  pub size : length bytes ≡ 32
  pub reads : L.key_from_bytes bytes ≡ ok key
  pub signature_size : (text : String) → length (L.sign secret text) ≡ 64
  pub verifies : (text : String) → L.verify key text (L.sign secret text) ≡ true

-- The request arrives with the method, the path and the three headers that were signed.
pub record IsDelivered (L : Library) (parts : Parts) (method path host date signature : String)
    : Type 0 where
  pub same_method : L.lower parts.method ≡ method
  pub same_path : parts.path_and_query ≡ some path
  pub same_host : parts.header "host" ≡ some host
  pub same_date : parts.header "date" ≡ some date
  pub same_signature : parts.header "signature" ≡ some signature

strip_z : (s : String) → strip_char b'z' (concat "z" s) ≡ some s
unfolding strip_char
strip_z s = ap (strip_char b'z') (append.cons "z" "" s) ∙ ap some (append.nil s)

has_char-concat :
    (n : ℕ) (s t : String)
    → has_char n s ≡ false
    → has_char n t ≡ false
    → has_char n (concat s t) ≡ false
has_char-concat n String.[] t h k = ap (has_char n) (append.nil t) ∙ k
has_char-concat n (String.◌∷◌ c s) t h k =
    ap (has_char n) (append.cons c s t) ∙ ground (arith, has_char-concat n s t)

-- The lines joined are the text that was signed.
signed_text :
    (method path host date : String)
    → join_lines (
        concat "(request-target): " (concat method (concat " " path))
        ∷ concat "host" (concat ": " host)
        ∷ concat "date" (concat ": " date)
        ∷ [])
      ≡ concat "(request-target): " (
          concat method
            (concat " " (concat path (concat "\nhost: " (concat host (concat "\ndate: " date))))))
signed_text method path host date =
    append_assoc "(request-target): " (concat method (concat " " path)) _
    ∙ ap (concat "(request-target): ") (
        append_assoc method (concat " " path) _
        ∙ ap (concat method) (append_assoc " " path _ ∙ ap (λ x. concat " " (concat path x)) lines))
  where
    lines :
        concat "\n" (
          concat
            (concat "host" (concat ": " host))
            (concat "\n" (concat "date" (concat ": " date))))
        ≡ concat "\nhost: " (concat host (concat "\ndate: " date))
    lines =
        ap (concat "\n")
          (append_assoc "host" (concat ": " host) _ ∙ ap (concat "host") (append_assoc ": " host _))
        ∙ sym (append_assoc "\n" "host" _)
        ∙ sym (append_assoc "\nhost" ": " _)
        ∙ ap (λ x. concat "\nhost: " (concat host x))
            (sym (append_assoc "\n" "date" _) ∙ sym (append_assoc "\ndate" ": " date))

module _ (L : Library) (parts : Parts) {method path host date signature : String}
    (d : IsDelivered L parts method path host date signature) where
  signing_string-delivered :
      build_signing_string L parts ("(request-target)" ∷ "host" ∷ "date" ∷ [])
      ≡ ok (
          concat "(request-target): " (
            concat method (
              concat " " (concat path (concat "\nhost: " (concat host (concat "\ndate: " date)))))))
  unfolding build_signing_string signing_lines signing_line
  signing_string-delivered =
      rw
        (
          d.same_host, d.same_date, d.same_path, d.same_method, build_signing_string, signing_lines,
          signing_line,
        )
        (ap ok (signed_text method path host date))

within : (n : ℕ) → n ≤ 300 → leb n 300 ≡ true
within n h = ground arith

module _ (P : Platform) (L : Library) where
  validate_date-recent :
      (now dt : L.Instant) (date : String)
      → header_date L now date ≡ some dt
      → L.seconds_between now dt ≤ 300
      → validate_date P L now date ≡ ok tt
  unfolding validate_date
  validate_date-recent now dt date h k =
      rw (h, within (L.seconds_between now dt) k, validate_date) refl

  pub decode_multibase_key-encoded :
      (bytes : List ℕ) (key : L.VerifyingKey)
      → IsBase58 L
      → length bytes ≡ 32
      → L.key_from_bytes bytes ≡ ok key
      → decode_multibase_key P L (concat "z" (L.bs58_encode (0xed ∷ 1 ∷ bytes))) ≡ ok key
  unfolding decode_multibase_key
  decode_multibase_key-encoded bytes key b size reads =
      rw
        (
          strip_z (L.bs58_encode (0xed ∷ 1 ∷ bytes)),
          b.decodes (0xed ∷ 1 ∷ bytes),
          size,
          reads,
          decode_multibase_key,
        )
        refl

  check_signature-ok :
      (failed text b58 : String) (bytes : List ℕ) (key : L.VerifyingKey) (parts : Parts)
      (parsed : ParsedSignature)
      → build_signing_string L parts parsed.headers ≡ ok text
      → strip_char b'z' parsed.signature ≡ some b58
      → L.bs58_decode b58 ≡ ok bytes
      → length bytes ≡ 64
      → L.verify key text bytes ≡ true
      → check_signature P L failed key parts parsed ≡ ok parsed.key_id
  check_signature-ok failed text b58 bytes key parts parsed a b c d e =
      rw (a, b, c, d, e, check_signature) refl

module _ (P : Platform) (L : Library) where
  verify_node_signature-ok :
      (now dt : L.Instant) (parts : Parts) (header multibase date : String)
      (parsed : ParsedSignature) (key : L.VerifyingKey)
      → parts.header "signature" ≡ some header
      → parse_signature_header P header ≡ ok parsed
      → strip_prefix "did:key:" parsed.key_id ≡ some multibase
      → parts.header "date" ≡ some date
      → header_date L now date ≡ some dt
      → L.seconds_between now dt ≤ 300
      → decode_multibase_key P L multibase ≡ ok key
      → check_signature P L "node signature verification failed" key parts parsed ≡ ok parsed.key_id
      → verify_node_signature P L now parts ≡ ok parsed.key_id
  verify_node_signature-ok now dt parts header multibase date parsed key a b c d e f g h =
      rw (a, b, c, d, validate_date-recent P L now dt date e f, g, verify_node_signature) h

-- A request signed by `build_outbound_signature` with a node's key and DID, and delivered with its
-- method, path and headers, is accepted by `verify_node_signature` as coming from that DID, where
-- the receiver's clock is within 300 seconds of the date. Assumed of the libraries: `trim` leaves
-- text without outer space alone, base58 decodes what it encodes and has no quotes, and Ed25519
-- accepts its own signatures.
pub verify_node_signature-build_outbound_signature :
    (P : Platform) (L : Library)
    → KeepsTight P.trim
    → IsBase58 L
    → (secret : L.SigningKey) (key : L.VerifyingKey) (bytes : List ℕ) → IsKeyPair L secret key bytes
    → (sent now dt : L.Instant) (method path host : String) (parts : Parts)
    → let headers =
        build_outbound_signature L sent secret (did_key_from_bytes L bytes) method path host in
      IsDelivered L parts method path host headers.0 headers.1
      → header_date L now headers.0 ≡ some dt
      → L.seconds_between now dt ≤ 300
      → verify_node_signature P L now parts ≡ ok (did_key_from_bytes L bytes)
unfolding build_outbound_signature
verify_node_signature-build_outbound_signature P L keeps b secret key bytes k sent now dt method
      path host parts d recent close =
    let date = L.fmt_http_date sent in
    let text = concat "(request-target): " (
      concat method
        (concat " " (concat path (concat "\nhost: " (concat host (concat "\ndate: " date)))))) in
    let b58 = L.bs58_encode (L.sign secret text) in
    let parsed : ParsedSignature = record {
      key_id = did_key_from_bytes L bytes;
      algorithm = "ed25519";
      headers = "(request-target)" ∷ "host" ∷ "date" ∷ [];
      signature = concat "z" b58;
    } in
    verify_node_signature-ok P L now dt parts
      (signature_header (did_key_from_bytes L bytes) (concat "z" b58))
      (concat "z" (L.bs58_encode (0xed ∷ 1 ∷ bytes))) date parsed key d.same_signature
      (parse_signature_header-outbound P keeps (did_key_from_bytes L bytes) (concat "z" b58)
        (has_char-concat b'"' "did:key:" (concat "z" (L.bs58_encode (0xed ∷ 1 ∷ bytes))) refl (
          has_char-concat b'"' "z" (L.bs58_encode (0xed ∷ 1 ∷ bytes)) refl
            (b.plain (0xed ∷ 1 ∷ bytes))))
        (has_char-concat b'"' "z" b58 refl (b.plain (L.sign secret text))))
      (strip_prefix-concat "did:key:" (concat "z" (L.bs58_encode (0xed ∷ 1 ∷ bytes)))) d.same_date
      recent close (decode_multibase_key-encoded P L bytes key b k.size k.reads)
      (check_signature-ok P L "node signature verification failed" text b58 (L.sign secret text) key
        parts parsed (signing_string-delivered L parts d) (strip_z b58)
        (b.decodes (L.sign secret text)) (k.signature_size text) (k.verifies text))

-- ===== src/Node/Auth.antt =====
-- packages/node/src/middleware/auth.rs: HTTP signatures of agents and of nodes.
pub mod Header
pub mod Outbound
pub mod RoundTrip
pub mod Accepted
pub mod Checked
pub mod Extractors
use Prim.Native.Char.{code}
use symantic_weft.Prelude.{
  ℕ, Bool, true, false, ◌&&◌, Option, none, some, List, [], ◌∷◌, String, ◌==◌, eqb, leb, length,
  concat, strip_prefix, if◌then◌else◌, Result, ok, err, ◌>>=◌, ◌>>◌, ok_or, require, unwrap_or,
}
use symantic_weft.Platform.{Platform}
use symantic_weft.NodeApi.{AgentProfile}
use symantic_weft.Node.Memory.{Inner}
use symantic_weft.Node.Memory.Agents.{get_agent}
use symantic_weft.Node.Storage.{StorageError, not_found, conflict, internal}
use symantic_weft.Node.Auth.Header.{ParsedSignature, parse_signature_header, strip_char}

-- What `http`, `httpdate`, `chrono`, `bs58` and `ed25519_dalek` compute
pub record Library : Type 1 where
  -- `s.to_lowercase()`
  pub lower : String → String
  pub Instant : Type 0
  -- `httpdate::parse_http_date`, in seconds since the epoch
  pub http_date : String → Option ℕ
  -- `DateTime::from_timestamp(secs, 0)`
  pub from_timestamp : ℕ → Option Instant
  -- `DateTime::parse_from_rfc3339`
  pub rfc3339 : String → Option Instant
  -- `(now - dt).num_seconds().abs()`
  pub seconds_between : Instant → Instant → ℕ
  -- `httpdate::fmt_http_date`
  pub fmt_http_date : Instant → String
  pub bs58_encode : List ℕ → String
  pub bs58_decode : String → Result (List ℕ) String
  pub VerifyingKey : Type 0
  pub SigningKey : Type 0
  -- `VerifyingKey::from_bytes`, of 32 bytes
  pub key_from_bytes : List ℕ → Result VerifyingKey String
  pub verify : VerifyingKey → String → List ℕ → Bool
  -- the 64 bytes of a signature
  pub sign : SigningKey → String → List ℕ

-- `Parts`; `header` is `headers.get(name).and_then(|v| v.to_str().ok())`
pub record Parts : Type 0 where
  pub method : String
  pub path_and_query : Option String
  pub header : String → Option String

-- `lines.join("\n")`
abbrev pub join_lines : List String → String
join_lines [] = ""
join_lines (x ∷ []) = x
join_lines (x ∷ y ∷ rest) = concat x (concat "\n" (join_lines (y ∷ rest)))

abbrev pub prefix_err : {A : Type 0} → String → Result A String → Result A String
prefix_err before (ok a) = ok a
prefix_err before (err e) = err (concat before e)

-- `Display` of `StorageError`
abbrev pub display_storage_error : StorageError → String
display_storage_error not_found = "not found"
display_storage_error (conflict msg) = concat "conflict: " msg
display_storage_error (internal msg) = concat "internal storage error: " msg

-- `result.ok()`
abbrev pub ok_of : {A : Type 0} → Result A String → Option A
ok_of (ok a) = some a
ok_of (err e) = none

-- `.map_err(|e| format!("storage error: {e}"))`
abbrev pub storage_result : {A : Type 0} → Result A StorageError → Result A String
storage_result (ok a) = ok a
storage_result (err e) = err (concat "storage error: " (display_storage_error e))

module _ (L : Library) where
  -- One line of the signing string
  unfoldable pub signing_line : Parts → String → Result String String
  signing_line parts name =
      if name == "(request-target)"
      then ok (
          concat "(request-target): "
            (concat (L.lower parts.method) (concat " " (unwrap_or parts.path_and_query "/"))))
      else elim (parts.header name) [
        | none ↦ err (concat "missing header: " name)
        | some value ↦ ok (concat name (concat ": " value))
      ]

  unfoldable pub signing_lines : Parts → List String → Result (List String) String
  signing_lines parts [] = ok []
  signing_lines parts (name ∷ names) = do
    line ← signing_line parts name
    rest ← signing_lines parts names
    ok (line ∷ rest)

  unfoldable pub build_signing_string : Parts → List String → Result String String
  build_signing_string parts headers = do lines ← signing_lines parts headers; ok (join_lines lines)

  -- the date that a header gives, where `now` stands for a timestamp out of range
  unfoldable pub header_date : L.Instant → String → Option L.Instant
  header_date now date = elim (L.http_date date) [
    | some secs ↦ some (unwrap_or (L.from_timestamp secs) now)
    | none ↦ L.rfc3339 date
  ]

module _ (P : Platform) (L : Library) where
  unfoldable pub validate_date : L.Instant → String → Result (Unit {0}) String
  validate_date now date = elim (header_date L now date) [
    | none ↦ err (concat "unparseable date: " (P.debug date))
    | some dt ↦
        if leb (L.seconds_between now dt) 300
        then ok tt
        else err (
            concat "Date is " (
              concat (P.decimal (L.seconds_between now dt))
                "s from server clock (max 300s allowed)"))
  ]

  -- the bytes behind the multicodec prefix
  abbrev pub key_bytes : List ℕ → Result (List ℕ) String
  key_bytes (a ∷ b ∷ rest) =
      if eqb a 0xed && eqb b 1
      then (if eqb (length rest) 32 then ok rest else err "key must be 32 bytes")
      else err "missing ed25519 multicodec prefix [0xed, 0x01]"
  key_bytes _ = err "missing ed25519 multicodec prefix [0xed, 0x01]"

  unfoldable pub decode_multibase_key : String → Result L.VerifyingKey String
  decode_multibase_key multibase = do
    b58 ← ok_or (strip_char b'z' multibase) "public key multibase must start with 'z'"
    decoded ← prefix_err "bs58 decode failed: " (L.bs58_decode b58)
    bytes ← key_bytes decoded
    prefix_err "invalid Ed25519 key: " (L.key_from_bytes bytes)

  -- the last two steps of both verifications
  abbrev pub check_signature :
      String → L.VerifyingKey → Parts → ParsedSignature → Result String String
  check_signature failed key parts parsed = do
    text ← prefix_err "signing string error: " (build_signing_string L parts parsed.headers)
    b58 ← ok_or (strip_char b'z' parsed.signature) "signature value must start with 'z'"
    bytes ← prefix_err "bs58 decode failed: " (L.bs58_decode b58)
    require (eqb (length bytes) 64) "signature must be 64 bytes"
    require (L.verify key text bytes) failed
    ok parsed.key_id

  abbrev pub verify_node_signature : L.Instant → Parts → Result String String
  verify_node_signature now parts = do
    header ← ok_or (parts.header "signature") "missing Signature header"
    parsed ← prefix_err "invalid Signature header: " (parse_signature_header P header)
    multibase ←
        ok_or (strip_prefix "did:key:" parsed.key_id)
          (concat "keyId must be a did:key DID, got: " parsed.key_id)
    date ← ok_or (parts.header "date") "missing Date header"
    prefix_err "Date header invalid: " (validate_date now date)
    key ← prefix_err "invalid did:key public key: " (decode_multibase_key multibase)
    check_signature "node signature verification failed" key parts parsed

  -- the key that the storage has for the agent
  abbrev pub registered_key : Inner P → String → Result L.VerifyingKey String
  registered_key s key_id = do
    found ← storage_result (get_agent P key_id s).0
    profile ← ok_or found (concat "agent " (concat key_id " not registered"))
    multibase ← ok_or profile.public_key (concat "agent " (concat key_id " has no public key"))
    prefix_err (concat "invalid public key for " (concat key_id ": "))
        (decode_multibase_key multibase)

  abbrev pub verify_http_signature : L.Instant → Parts → Inner P → Result String String
  verify_http_signature now parts s = do
    header ← ok_or (parts.header "signature") "missing Signature header"
    parsed ← prefix_err "invalid Signature header: " (parse_signature_header P header)
    date ← ok_or (parts.header "date") "missing Date header"
    prefix_err "Date header invalid: " (validate_date now date)
    key ← registered_key s parsed.key_id
    check_signature "signature verification failed" key parts parsed

  -- the extractors `RequireAuth`, `OptionalAuth` and `NodeAuth`
  unfoldable pub require_auth : L.Instant → Parts → Inner P → Result String String
  require_auth now parts s = verify_http_signature now parts s

  unfoldable pub optional_auth : L.Instant → Parts → Inner P → Option String
  optional_auth now parts s = ok_of (verify_http_signature now parts s)

  unfoldable pub node_auth : L.Instant → Parts → Result (Unit {0}) String
  node_auth now parts = do did ← verify_node_signature now parts; ok tt

-- `AuthError::into_response`: the status, the code and the message
unfoldable pub auth_error_response : String → ℕ × String × String
auth_error_response msg = (401, "unauthorized", msg)

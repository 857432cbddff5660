-- ===== src/Node/Auth/Extractors.antt =====
-- The extractors of packages/node/src/middleware/auth.rs: what a request needs to pass.
use symantic_weft.Prelude.{
  ℕ, ◌≤◌, true, strip_prefix, some, List, String, length, ◌≡◌, ◌↔◌, ap, ok, ◌>>=◌,
}
use symantic_weft.Prelude.Map.{lookup}
use symantic_weft.Platform.{Platform}
use symantic_weft.NodeApi.{AgentProfile}
use symantic_weft.Node.Memory.{Inner}
use symantic_weft.Node.Auth.{
  Library, Parts, build_signing_string, header_date, validate_date, decode_multibase_key,
  verify_http_signature, verify_node_signature, require_auth, optional_auth, node_auth, prefix_err,
}
use symantic_weft.Node.Auth.Header.{ParsedSignature, parse_signature_header, strip_char}
use symantic_weft.Node.Auth.Checked.{
  bind-eq-ok_iff, then-eq-ok_iff, ok_or-eq-ok_iff, ok_of_iff, prefix_err-eq-ok_iff,
  validate_date_iff, check_signature_iff, registered_key_iff,
}

module _ (P : Platform) (L : Library) where
  -- A request that is signed for a DID, with a key that `HasKey` allows for it.
  pub record IsSigned (now : L.Instant) (parts : Parts) (did : String)
      (HasKey : String → L.VerifyingKey → Type 0) : Type 0 where
    pub header : String
    pub parsed : ParsedSignature
    pub date : String
    pub dt : L.Instant
    pub key : L.VerifyingKey
    pub text : String
    pub b58 : String
    pub bytes : List ℕ
    pub has_header : parts.header "signature" ≡ some header
    pub parses : parse_signature_header P header ≡ ok parsed
    pub names : parsed.key_id ≡ did
    pub has_date : parts.header "date" ≡ some date
    pub reads : header_date L now date ≡ some dt
    pub recent : L.seconds_between now dt ≤ 300
    pub has_key : HasKey parsed.key_id key
    pub signs : build_signing_string L parts parsed.headers ≡ ok text
    pub multibase : strip_char b'z' parsed.signature ≡ some b58
    pub decodes : L.bs58_decode b58 ≡ ok bytes
    pub size : length bytes ≡ 64
    pub verifies : L.verify key text bytes ≡ true

  -- The key in the agent's profile
  abbrev pub IsRegistered : Inner P → String → L.VerifyingKey → Type 0
  IsRegistered s did key =
      (profile : AgentProfile P) × (lookup did s.agents ≡ some profile)
      × (multibase : String) × (profile.public_key ≡ some multibase)
      × (decode_multibase_key P L multibase ≡ ok key)

  -- The key that a `did:key` is
  abbrev pub IsOwnKey : String → L.VerifyingKey → Type 0
  IsOwnKey did key =
      (multibase : String) × (strip_prefix "did:key:" did ≡ some multibase)
      × (decode_multibase_key P L multibase ≡ ok key)

  verify_http_signature_sound :
      (now : L.Instant) (parts : Parts) (s : Inner P) (did : String)
      → verify_http_signature P L now parts s ≡ ok did
      → IsSigned now parts did (IsRegistered s)
  verify_http_signature_sound now parts s did h =
      let (header, a, k1) = (bind-eq-ok_iff _ _ did).0 h in
      let (parsed, b, k2) = (bind-eq-ok_iff _ _ did).0 k1 in
      let (date, c, k3) = (bind-eq-ok_iff _ _ did).0 k2 in
      let (d, k4) =
        (then-eq-ok_iff (prefix_err "Date header invalid: " (validate_date P L now date)) _ did).0
          k3 in
      let (key, e, k5) = (bind-eq-ok_iff _ _ did).0 k4 in
      let (dt, f, g) = (validate_date_iff P L now date).0 ((prefix_err-eq-ok_iff _ _ tt).0 d) in
      let (text, i, b58, j, bytes, l, m, n, o) =
        (check_signature_iff P L _ did key parts parsed).0 k5 in
      record {
        header = header;
        parsed = parsed;
        date = date;
        dt = dt;
        key = key;
        text = text;
        b58 = b58;
        bytes = bytes;
        has_header = (ok_or-eq-ok_iff _ _ header).0 a;
        parses = (prefix_err-eq-ok_iff _ _ parsed).0 b;
        names = o;
        has_date = (ok_or-eq-ok_iff _ _ date).0 c;
        reads = f;
        recent = g;
        has_key = (registered_key_iff P L s parsed.key_id key).0 e;
        signs = i;
        multibase = j;
        decodes = l;
        size = m;
        verifies = n;
      }

  verify_http_signature_complete :
      (now : L.Instant) (parts : Parts) (s : Inner P) (did : String)
      → IsSigned now parts did (IsRegistered s)
      → verify_http_signature P L now parts s ≡ ok did
  verify_http_signature_complete now parts s did w =
      rw
        (
          w.has_header,
          w.parses,
          w.has_date,
          (validate_date_iff P L now w.date).1 (w.dt, w.reads, w.recent),
          (registered_key_iff P L s w.parsed.key_id w.key).1 w.has_key,
        )
        ((check_signature_iff P L _ did w.key parts w.parsed).1
          (w.text, w.signs, w.b58, w.multibase, w.bytes, w.decodes, w.size, w.verifies, w.names))

  verify_node_signature_sound :
      (now : L.Instant) (parts : Parts) (did : String)
      → verify_node_signature P L now parts ≡ ok did
      → IsSigned now parts did IsOwnKey
  verify_node_signature_sound now parts did h =
      let (header, a, k1) = (bind-eq-ok_iff _ _ did).0 h in
      let (parsed, b, k2) = (bind-eq-ok_iff _ _ did).0 k1 in
      let (multibase, p, k6) = (bind-eq-ok_iff _ _ did).0 k2 in
      let (date, c, k3) = (bind-eq-ok_iff _ _ did).0 k6 in
      let (d, k4) =
        (then-eq-ok_iff (prefix_err "Date header invalid: " (validate_date P L now date)) _ did).0
          k3 in
      let (key, e, k5) = (bind-eq-ok_iff _ _ did).0 k4 in
      let (dt, f, g) = (validate_date_iff P L now date).0 ((prefix_err-eq-ok_iff _ _ tt).0 d) in
      let (text, i, b58, j, bytes, l, m, n, o) =
        (check_signature_iff P L _ did key parts parsed).0 k5 in
      record {
        header = header;
        parsed = parsed;
        date = date;
        dt = dt;
        key = key;
        text = text;
        b58 = b58;
        bytes = bytes;
        has_header = (ok_or-eq-ok_iff _ _ header).0 a;
        parses = (prefix_err-eq-ok_iff _ _ parsed).0 b;
        names = o;
        has_date = (ok_or-eq-ok_iff _ _ date).0 c;
        reads = f;
        recent = g;
        has_key =
            (multibase, (ok_or-eq-ok_iff _ _ multibase).0 p, (prefix_err-eq-ok_iff _ _ key).0 e);
        signs = i;
        multibase = j;
        decodes = l;
        size = m;
        verifies = n;
      }

  verify_node_signature_complete :
      (now : L.Instant) (parts : Parts) (did : String)
      → IsSigned now parts did IsOwnKey
      → verify_node_signature P L now parts ≡ ok did
  verify_node_signature_complete now parts did w =
      rw
        (
          w.has_header,
          w.parses,
          w.has_key.1,
          w.has_date,
          (validate_date_iff P L now w.date).1 (w.dt, w.reads, w.recent),
          w.has_key.2,
        )
        ((check_signature_iff P L _ did w.key parts w.parsed).1
          (w.text, w.signs, w.b58, w.multibase, w.bytes, w.decodes, w.size, w.verifies, w.names))

-- `RequireAuth` lets a request through as coming from a DID exactly when its `Signature` header
-- parses and names that DID, its `Date` is within 300 seconds of the clock, an agent is registered
-- under the DID with a public key that decodes, and the 64 bytes of the signature verify with this
-- key over the lines of the named headers; `OptionalAuth` then yields the DID too, and none
-- otherwise.
pub require_auth_iff :
    (P : Platform) (L : Library) (now : L.Instant) (parts : Parts) (s : Inner P) (did : String)
    → ((require_auth P L now parts s ≡ ok did) ↔ IsSigned P L now parts did (IsRegistered P L s))
      × ((optional_auth P L now parts s ≡ some did) ↔ (require_auth P L now parts s ≡ ok did))
unfolding require_auth optional_auth
require_auth_iff P L now parts s did = (
  (
    verify_http_signature_sound P L now parts s did,
    verify_http_signature_complete P L now parts s did,
  ),
  ok_of_iff (verify_http_signature P L now parts s) did,
)

-- `NodeAuth` lets a request through exactly when, for some DID, its `Signature` header parses and
-- names it, the `Date` is within 300 seconds of the clock, the DID is a `did:key` whose key decodes,
-- and the signature verifies with that key; no agent has to be registered.
pub node_auth_iff :
    (P : Platform) (L : Library) (now : L.Instant) (parts : Parts)
    → (node_auth P L now parts ≡ ok tt)
      ↔ ((did : String) × IsSigned P L now parts did (IsOwnKey P L))
unfolding node_auth
node_auth_iff P L now parts = (
  λ h.
      let (did, a, k) = (bind-eq-ok_iff (verify_node_signature P L now parts) _ tt).0 h in
      (did, verify_node_signature_sound P L now parts did a),
  λ (did, w). ap (λ r. r >>= λ d. ok tt) (verify_node_signature_complete P L now parts did w),
)

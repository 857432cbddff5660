-- ===== src/Node/Start.antt =====
-- packages/node/src/main.rs: what the start of a node does with its identity.
use symantic_weft.Prelude.{some, String, length, concat, if◌then◌else◌, ok, ◌≡◌, refl, ap, ◌==◌}
use symantic_weft.Platform.{Platform}
use symantic_weft.NodeApi.Node.{NodeInfo}
use symantic_weft.Node.State.{NodeConfig}
use symantic_weft.Node.Config.{node_id_needs_generation}
use symantic_weft.Node.Auth.{Library, decode_multibase_key}
use symantic_weft.Node.Auth.Accepted.{IsBase58, decode_multibase_key-encoded}
use symantic_weft.Node.Identity.{Seeds, NodeIdentity, did, public_key_multibase}
use symantic_weft.Node.Handlers.Discovery.{well_known}

module _ (P : Platform) {L : Library} (S : Seeds L) where
  -- the configuration that `main` goes on with
  unfoldable pub with_identity : NodeConfig P → NodeIdentity L → NodeConfig P
  with_identity config identity = record config {
    node_id = if node_id_needs_generation P config then did S identity else config.node_id;
    public_key = some (public_key_multibase S identity);
  }

  -- A discovery document announces the key under its own DID.
  pub record IsAnnounced (config : NodeConfig P) (key : L.VerifyingKey) (info : NodeInfo)
      : Type 0 where
    pub public_key : String
    pub announced : info.public_key ≡ some public_key
    pub named : info.node_id ≡ concat "did:key:" public_key
    pub reads : decode_multibase_key P L public_key ≡ ok key
    pub based : info.api_base ≡ config.api_base

-- A node whose id is generated serves a discovery document with a public key that
-- `decode_multibase_key` reads as the node's own verifying key, a DID that is `did:key:` of the same
-- text, and the base URL of the configuration. Base58 decodes what it encoded, and the bytes of the
-- public key are 32 and read back.
pub well_known-IsAnnounced :
    (P : Platform) (L : Library) (S : Seeds L) (config : NodeConfig P) (identity : NodeIdentity L)
    (key : L.VerifyingKey)
    → IsBase58 L
    → length (S.public_bytes identity.signing_key) ≡ 32
    → L.key_from_bytes (S.public_bytes identity.signing_key) ≡ ok key
    → config.node_id ≡ "__generate__"
    → IsAnnounced P S config key (well_known P (with_identity P S config identity))
unfolding with_identity
well_known-IsAnnounced P L S config identity key base58 size reads generated = record {
  public_key = public_key_multibase S identity;
  announced = refl;
  named = ap (λ id. if id == "__generate__" then did S identity else config.node_id) generated;
  reads =
      decode_multibase_key-encoded P L (S.public_bytes identity.signing_key) key base58 size reads;
  based = refl;
}

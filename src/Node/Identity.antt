-- ===== src/Node/Identity.antt =====
-- packages/node/src/identity.rs: the key pair of the node and its DID.
pub mod Stable
use symantic_weft.Prelude.{
  ℕ, none, some, List, ◌∷◌, String, concat, eqb, length, if◌then◌else◌, Result, ok, err,
}
use symantic_weft.Prelude.Action.{pure, from_result, ◌>>=◌, ◌>>◌}
use symantic_weft.Platform.{Platform}
use symantic_weft.Node.Storage.{StorageError, internal}
use symantic_weft.Node.Memory.{Store}
use symantic_weft.Node.Memory.Settings.{get_node_config, set_node_config}
use symantic_weft.Node.Auth.{Library}

-- What `ed25519_dalek` and `hex` compute with the seed of a key
pub record Seeds (L : Library) : Type 0 where
  -- `to_bytes` and `from_bytes`, of 32 bytes
  pub to_bytes : L.SigningKey → List ℕ
  pub from_bytes : List ℕ → L.SigningKey
  -- `verifying_key().to_bytes()`
  pub public_bytes : L.SigningKey → List ℕ
  pub hex_encode : List ℕ → String
  pub hex_decode : String → Result (List ℕ) String

abbrev pub seed_key : String
seed_key = "node_identity_seed"

pub record NodeIdentity (L : Library) : Type 0 where
  pub signing_key : L.SigningKey

module _ (L : Library) where
  abbrev pub encode_multibase : List ℕ → String
  encode_multibase pub_key = concat "z" (L.bs58_encode (0xed ∷ 1 ∷ pub_key))

  abbrev pub did_key_from_bytes : List ℕ → String
  did_key_from_bytes pub_key = concat "did:key:" (encode_multibase pub_key)

module _ {L : Library} (S : Seeds L) where
  abbrev pub did : NodeIdentity L → String
  did identity = did_key_from_bytes L (S.public_bytes identity.signing_key)

  abbrev pub public_key_multibase : NodeIdentity L → String
  public_key_multibase identity = encode_multibase L (S.public_bytes identity.signing_key)

  -- the identity of a seed that was stored
  unfoldable pub load : String → Result (NodeIdentity L) StorageError
  load hex_seed = elim (S.hex_decode hex_seed) [
    | err e ↦ err (internal (concat "invalid identity seed: " e))
    | ok bytes ↦
        if eqb (length bytes) 32
        then ok (record { signing_key = S.from_bytes bytes })
        else err (internal "identity seed must be 32 bytes")
  ]

  module _ (P : Platform) where
    -- `fresh` is the key that `SigningKey::generate` draws.
    unfoldable pub load_or_generate : L.SigningKey → Store P (NodeIdentity L)
    load_or_generate fresh = do
      found ← get_node_config P seed_key
      elim found [
        | some hex_seed ↦ from_result (load hex_seed)
        | none ↦ do
          set_node_config P seed_key (S.hex_encode (S.to_bytes fresh))
          pure (record { signing_key = fresh })
      ]

-- ===== src/Node/Identity/Stable.antt =====
-- The identity of packages/node/src/identity.rs over restarts.
use symantic_weft.Prelude.{ℕ, none, some, List, String, length, ok, ◌≡◌, refl, ap, ◌∙◌}
use symantic_weft.Prelude.Map.{lookup, lookup-insert}
use symantic_weft.Platform.{Platform}
use symantic_weft.Node.Memory.{Inner}
use symantic_weft.Node.Memory.Settings.{get_node_config, set_node_config}
use symantic_weft.Node.Auth.{Library}
use symantic_weft.Node.Identity.{Seeds, seed_key, load, load_or_generate}

-- What the crates promise: 32 bytes make a key, and both encodings can be undone.
pub record IsSeeds (L : Library) (S : Seeds L) : Type 0 where
  pub size : (key : L.SigningKey) → length (S.to_bytes key) ≡ 32
  pub reads : (key : L.SigningKey) → S.from_bytes (S.to_bytes key) ≡ key
  pub decodes : (bytes : List ℕ) → S.hex_decode (S.hex_encode bytes) ≡ ok bytes

module _ (L : Library) (S : Seeds L) (P : Platform) where
  load-stored :
      (key : L.SigningKey)
      → IsSeeds L S
      → load S (S.hex_encode (S.to_bytes key)) ≡ ok (record { signing_key = key })
  unfolding load
  load-stored key c = rw (c.decodes (S.to_bytes key), c.size key, c.reads key, load) refl

  load_or_generate-found :
      (fresh : L.SigningKey) (s : Inner P) (text : String)
      → lookup seed_key s.node_config ≡ some text
      → load_or_generate S P fresh s ≡ (load S text, s)
  unfolding load_or_generate get_node_config
  load_or_generate-found fresh s text h = rw (h, load_or_generate, get_node_config) refl

  load_or_generate-fresh :
      (fresh : L.SigningKey) (s : Inner P)
      → lookup seed_key s.node_config ≡ none
      → load_or_generate S P fresh s ≡ (
        ok (record { signing_key = fresh }),
        (set_node_config P seed_key (S.hex_encode (S.to_bytes fresh)) s).1,
      )
  unfolding load_or_generate get_node_config set_node_config
  load_or_generate-fresh fresh s h = rw (h, load_or_generate, get_node_config) refl

  stored_seed :
      (text : String) (s : Inner P)
      → lookup seed_key (set_node_config P seed_key text s).1.node_config ≡ some text
  unfolding set_node_config
  stored_seed text s = lookup-insert seed_key seed_key text s.node_config

-- The first start of a node, on a storage without a seed, succeeds with the key that was drawn; and
-- every later start on a storage with the seed entry that it left yields the same identity, whatever
-- key would have been drawn, and writes nothing.
pub load_or_generate-stable :
    (L : Library) (S : Seeds L) (P : Platform) (fresh other : L.SigningKey) (s t : Inner P)
    → IsSeeds L S
    → lookup seed_key s.node_config ≡ none
    → lookup seed_key t.node_config ≡ lookup seed_key (load_or_generate S P fresh s).1.node_config
    → ((load_or_generate S P fresh s).0 ≡ ok (record { signing_key = fresh }))
      × (load_or_generate S P other t ≡ (ok (record { signing_key = fresh }), t))
load_or_generate-stable L S P fresh other s t c absent same =
    let first = load_or_generate-fresh L S P fresh s absent in
    (
      ap (λ r. r.0) first,
      load_or_generate-found L S P other t _
            (same ∙ ap (λ r. lookup seed_key r.1.node_config) first ∙ stored_seed L S P _ s)
          ∙ ap (λ r. (r, t)) (load-stored L S P fresh c),
    )

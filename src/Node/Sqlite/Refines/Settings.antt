-- ===== src/Node/Sqlite/Refines/Settings.antt =====
-- The cursor and configuration methods of packages/node/src/storage/sqlite.rs against those of
-- memory.rs.
use symantic_weft.Prelude.{String, refl, ap, ok}
use symantic_weft.Prelude.Map.{lookup, insert}
use symantic_weft.Platform.{Platform}
use symantic_weft.Node.Memory.{Inner}
use symantic_weft.Node.Memory.Settings as Settings
use symantic_weft.Node.Sqlite.{Engine, Tables}
use symantic_weft.Node.Sqlite.Settings.{get_cursor, set_cursor, get_node_config, set_node_config}
use symantic_weft.Node.Sqlite.Refines.Agree.{quiet, Agree, Simulates, simulated}

module _ {P : Platform} (E : Engine P) where
  pub get_cursor_refines :
      (url : String) (t : Tables P) (s : Inner P)
      → Agree E t s
      → Simulates E (get_cursor P url (quiet t)) (Settings.get_cursor P url s)
  unfolding get_cursor Settings.get_cursor
  get_cursor_refines url t s a = (t, ap (λ m. (ok (lookup url m), quiet t)) a.cursors, a)

  pub set_cursor_refines :
      (url cursor : String) (t : Tables P) (s : Inner P)
      → Agree E t s
      → Simulates E (set_cursor P url cursor (quiet t)) (Settings.set_cursor P url cursor s)
  unfolding set_cursor Settings.set_cursor
  set_cursor_refines url cursor t s a = simulated E (ok tt) _ _ refl refl (record {
    units = a.units;
    agents = a.agents;
    counts = a.counts;
    follows = a.follows;
    peers = a.peers;
    cursors = ap (insert url cursor) a.cursors;
    node_config = a.node_config;
  })

  pub get_node_config_refines :
      (key : String) (t : Tables P) (s : Inner P)
      → Agree E t s
      → Simulates E (get_node_config P key (quiet t)) (Settings.get_node_config P key s)
  unfolding get_node_config Settings.get_node_config
  get_node_config_refines key t s a = (t, ap (λ m. (ok (lookup key m), quiet t)) a.node_config, a)

  pub set_node_config_refines :
      (key value : String) (t : Tables P) (s : Inner P)
      → Agree E t s
      → Simulates E (set_node_config P key value (quiet t)) (Settings.set_node_config P key value s)
  unfolding set_node_config Settings.set_node_config
  set_node_config_refines key value t s a = simulated E (ok tt) _ _ refl refl (record {
    units = a.units;
    agents = a.agents;
    counts = a.counts;
    follows = a.follows;
    peers = a.peers;
    cursors = a.cursors;
    node_config = ap (insert key value) a.node_config;
  })

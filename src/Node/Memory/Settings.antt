-- ===== src/Node/Memory/Settings.antt =====
-- The configuration, cursor and inbox methods of `MemoryStorage` (packages/node/src/storage/memory.rs).
use symantic_weft.Prelude.{
  ℕ, Bool, false, Option, none, some, List, [], String, is_some, if◌then◌else◌, ok, unwrap_or,
}
use symantic_weft.Prelude.Map.{lookup, insert, insert_sorted}
use symantic_weft.Platform.{Platform}
use symantic_weft.Core.Types.{SemanticUnit}
use symantic_weft.Node.Memory.{Store}
use symantic_weft.Node.Memory.Units.{from_cursor, page}

module _ (P : Platform) where
  unfoldable pub get_node_config : String → Store P (Option String)
  get_node_config key s = (ok (lookup key s.node_config), s)

  unfoldable pub set_node_config : String → String → Store P (Unit {0})
  set_node_config key value s = (ok tt, record s { node_config = insert key value s.node_config })

  unfoldable pub get_cursor : String → Store P (Option String)
  get_cursor peer_url s = (ok (lookup peer_url s.cursors), s)

  unfoldable pub set_cursor : String → String → Store P (Unit {0})
  set_cursor peer_url cursor s = (ok tt, record s { cursors = insert peer_url cursor s.cursors })

  -- `entry(agent_did).or_default().entry(unit.id).or_insert_with(…)`
  unfoldable pub deliver_to_inbox : String → SemanticUnit P → Store P (Unit {0})
  deliver_to_inbox agent_did unit s =
      let items = unwrap_or (lookup agent_did s.inbox) [] in
      let items' =
        if is_some (lookup unit.id items) then items else insert_sorted unit.id unit items in
      (ok tt, record s { inbox = insert agent_did items' s.inbox })

  unfoldable pub get_inbox : String → Option String → ℕ → Store P (List (SemanticUnit P) × Bool)
  get_inbox agent_did after limit s = elim (lookup agent_did s.inbox) [
    | none ↦ (ok ([], false), s)
    | some items ↦ (ok (page limit (from_cursor after items)), s)
  ]

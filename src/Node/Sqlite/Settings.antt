-- ===== src/Node/Sqlite/Settings.antt =====
-- The configuration, cursor and inbox methods of packages/node/src/storage/sqlite.rs.
use symantic_weft.Prelude.{
  ℕ, suc, Bool, true, ◌&&◌, Option, none, some, List, [], ◌∷◌, String, ◌==◌, any, filter, take,
  str_lt, if◌then◌else◌,
}
use symantic_weft.Prelude.Action.{pure, from_result, ◌>>=◌}
use symantic_weft.Prelude.Map.{Map, lookup, insert}
use symantic_weft.Platform.{Platform}
use symantic_weft.Core.Types.{SemanticUnit}
use symantic_weft.Node.Sqlite.{Engine, Tables, Sql, query, execute, json_result, decode_all}
use symantic_weft.Node.Sqlite.Units.{order_by_key, cut}
use symantic_weft.Prelude.Map.{values}

abbrev pub in_inbox : String → String → List (String × String × String) → Bool
in_inbox did id rows = any (λ (r : String × String × String). (r.0 == did) && (r.1 == id)) rows

-- the `unit_id` and `data` columns
abbrev pub unit_columns : List (String × String × String) → Map String
unit_columns [] = []
unit_columns (r ∷ rows) = (r.1, r.2) ∷ unit_columns rows

module _ (P : Platform) where
  unfoldable pub get_node_config : String → Sql P (Option String)
  get_node_config key = query (λ t. lookup key t.node_config)

  unfoldable pub set_node_config : String → String → Sql P (Unit {0})
  set_node_config key value =
      execute (λ t. record t { node_config = insert key value t.node_config })

  unfoldable pub get_cursor : String → Sql P (Option String)
  get_cursor peer_url = query (λ t. lookup peer_url t.sync_cursors)

  unfoldable pub set_cursor : String → String → Sql P (Unit {0})
  set_cursor peer_url cursor =
      execute (λ t. record t { sync_cursors = insert peer_url cursor t.sync_cursors })

  -- `INSERT OR IGNORE INTO inbox`
  unfoldable pub add_to_inbox : String → String → String → Tables P → Tables P
  add_to_inbox did id json t =
      if in_inbox did id t.inbox then t else record t { inbox = (did, id, json) ∷ t.inbox }

  unfoldable pub deliver_to_inbox : Engine P → String → SemanticUnit P → Sql P (Unit {0})
  deliver_to_inbox E agent_did unit = do
    json ← from_result (json_result (E.to_json unit))
    execute (add_to_inbox agent_did unit.id json)

  abbrev pub inbox_passes : String → Option String → String × String × String → Bool
  inbox_passes did after r = (r.0 == did) && elim after [ none ↦ true | some id ↦ str_lt id r.1 ]

  -- `SELECT data FROM inbox WHERE … ORDER BY unit_id ASC LIMIT limit + 1`
  unfoldable pub select_inbox : String → Option String → ℕ → Tables P → List String
  select_inbox did after limit t =
      take (suc limit)
        (values (order_by_key (unit_columns (filter (inbox_passes did after) t.inbox))))

  unfoldable pub get_inbox :
      Engine P → String → Option String → ℕ → Sql P (List (SemanticUnit P) × Bool)
  get_inbox E agent_did after limit = do
    rows ← query (select_inbox agent_did after limit)
    items ← from_result (decode_all E.from_json (cut limit rows).0)
    pure (items, (cut limit rows).1)

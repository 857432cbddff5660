-- ===== src/Node/Sqlite/Agents.antt =====
-- The agent methods of packages/node/src/storage/sqlite.rs, and the statistics.
use symantic_weft.Prelude.{
  ℕ, ◌+◌, Bool, true, false, ◌&&◌, Option, none, some, List, [], ◌∷◌, String, ◌==◌, leb, ltb,
  filter, u32_mod, not, if◌then◌else◌, Result, ok, err,
}
use symantic_weft.Prelude.Action.{pure, fail, from_result, ◌>>=◌, ◌>>◌}
use symantic_weft.Prelude.Map.{lookup, insert, remove, values}
use symantic_weft.Platform.{Platform, clamp_unit}
use symantic_weft.NodeApi.{AgentProfile, AgentStatus, full, probationary}
use symantic_weft.Node.Storage.{StorageError, not_found, ReputationStats}
use symantic_weft.Node.Sqlite.{Engine, AgentRow, Tables, Sql, query, execute, statement, map_err}

abbrev pub status_str : AgentStatus → String
status_str full = "full"
status_str probationary = "probationary"

abbrev pub status_of : String → AgentStatus
status_of s = if s == "probationary" then probationary else full

module _ (P : Platform) where
  abbrev pub agent_row : AgentProfile P → AgentRow P
  agent_row profile = record {
    inbox_url = profile.inbox_url;
    display_name = profile.display_name;
    public_key = profile.public_key;
    status = status_str profile.status;
    contribution_count = profile.contribution_count;
    reputation = P.widen profile.reputation;
  }

  abbrev pub row_profile : String → AgentRow P → AgentProfile P
  row_profile did row = record {
    did = did;
    inbox_url = row.inbox_url;
    display_name = row.display_name;
    public_key = row.public_key;
    status = status_of row.status;
    contribution_count = row.contribution_count;
    reputation = P.narrow row.reputation;
  }

  -- `row.get` into a `u32`
  abbrev pub get_u32 : Engine P → ℕ → Result ℕ StorageError
  get_u32 E n = if ltb n u32_mod then ok n else err (map_err (E.out_of_range n))

  -- `INSERT INTO agents … ON CONFLICT(did) DO UPDATE SET …` of every other column
  unfoldable pub put_agent : AgentProfile P → Sql P (Unit {0})
  put_agent profile =
      execute (λ t. record t { agents = insert profile.did (agent_row profile) t.agents })

  abbrev pub read_agent : Engine P → String → Option (AgentRow P) → Sql P (Option (AgentProfile P))
  read_agent E did none = pure none
  read_agent E did (some row) = do
    _ ← from_result (get_u32 E row.contribution_count)
    pure (some (row_profile did row))

  unfoldable pub get_agent : Engine P → String → Sql P (Option (AgentProfile P))
  get_agent E did = do row ← query (λ t. lookup did t.agents); read_agent E did row

  unfoldable pub delete_agent : String → Sql P (Unit {0})
  delete_agent did = do
    execute (λ t. record t { agents = remove did t.agents })
    execute (λ t. record t { inbox = filter (λ row. not (row.0 == did)) t.inbox })

  -- `UPDATE agents SET … WHERE did = ?`, and whether a row was changed
  unfoldable pub update_agents : String → (AgentRow P → AgentRow P) → Tables P → Bool × Tables P
  update_agents did f t = elim (lookup did t.agents) [
    | none ↦ (false, t)
    | some row ↦ (true, record t { agents = insert did (f row) t.agents })
  ]

  abbrev pub count_up : AgentRow P → AgentRow P
  count_up row = record row { contribution_count = row.contribution_count + 1 }

  abbrev pub graduate : AgentRow P → AgentRow P
  graduate row = record row { status = "full" }

  -- from `SELECT status, contribution_count` on; a query without a row is an error
  abbrev pub check_graduation : Engine P → String → ℕ → Option (AgentRow P) → Sql P Bool
  check_graduation E did threshold none = fail (map_err "Query returned no rows")
  check_graduation E did threshold (some row) = do
    count ← from_result (get_u32 E row.contribution_count)
    (if (row.status == "probationary") && leb threshold count
        then (statement (update_agents did graduate) >>= λ _. pure true)
        else pure false)

  unfoldable pub increment_agent_contribution : Engine P → String → ℕ → Sql P Bool
  increment_agent_contribution E did threshold = do
    changed ← statement (update_agents did count_up)
    (if changed
        then (query (λ t. lookup did t.agents) >>= check_graduation E did threshold)
        else pure false)

  unfoldable pub update_agent_reputation : String → P.f32.Carrier → Sql P (Unit {0})
  update_agent_reputation did reputation = do
    changed ← statement (
        update_agents did
          (λ row. record row { reputation = P.widen (clamp_unit P.f32 reputation) }))
    (if changed then pure tt else fail not_found)

  abbrev pub squared : List P.f64.Carrier → List P.f64.Carrier
  squared [] = []
  squared (x ∷ xs) = P.f64.mul x x ∷ squared xs

  -- `COUNT(*)`, `AVG(reputation)` and `AVG(reputation * reputation)`, and the match on them
  unfoldable pub column_stats : Engine P → List P.f64.Carrier → ReputationStats P
  column_stats E [] = record { mean = P.f32.literal 0 1; stddev = P.f32.literal 0 1 }
  column_stats E (x ∷ xs) =
      let mean = E.average (x ∷ xs) in
      let variance =
        P.f64.max (P.f64.sub (E.average (squared (x ∷ xs))) (P.f64.mul mean mean))
          (P.f64.literal 0 1) in
      record { mean = P.narrow mean; stddev = P.narrow (P.f64.sqrt variance) }

  abbrev pub agent_column : List (AgentRow P) → List P.f64.Carrier
  agent_column [] = []
  agent_column (a ∷ rest) = a.reputation ∷ agent_column rest

  unfoldable pub agent_reputation_stats : Engine P → Sql P (ReputationStats P)
  agent_reputation_stats E = query (λ t. column_stats E (agent_column (values t.agents)))

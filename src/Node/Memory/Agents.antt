-- ===== src/Node/Memory/Agents.antt =====
-- The agent methods of `MemoryStorage` (packages/node/src/storage/memory.rs), and the statistics.
pub mod Laws
use symantic_weft.Prelude.{
  ℕ, ◌+◌, ◌%◌, Bool, true, false, Option, none, some, List, [], ◌∷◌, String, length, leb, u32_mod,
  eqb, ◌&&◌, if◌then◌else◌, ok, err,
}
use symantic_weft.Prelude.Map.{Map, lookup, insert, remove, values}
use symantic_weft.Platform.{Platform, clamp_unit}
use symantic_weft.NodeApi.{AgentProfile, AgentStatus, full, probationary}
use symantic_weft.Node.Storage.{not_found, ReputationStats}
use symantic_weft.Node.Memory.{Inner, Store}

abbrev pub is_full : AgentStatus → Bool
is_full full = true
is_full probationary = false

abbrev pub is_probationary : AgentStatus → Bool
is_probationary full = false
is_probationary probationary = true

module _ (P : Platform) where
  unfoldable pub put_agent : AgentProfile P → Store P (Unit {0})
  put_agent profile s = (ok tt, record s { agents = insert profile.did profile s.agents })

  unfoldable pub get_agent : String → Store P (Option (AgentProfile P))
  get_agent did s = (ok (lookup did s.agents), s)

  unfoldable pub delete_agent : String → Store P (Unit {0})
  delete_agent did s =
      (ok tt, record s { agents = remove did s.agents; inbox = remove did s.inbox })

  -- The body under `get_mut`: the new profile, and whether it has graduated. `+= 1` on a `u32`
  -- wraps in a release build.
  unfoldable pub contribute : ℕ → AgentProfile P → AgentProfile P × Bool
  contribute threshold p =
      let count = (p.contribution_count + 1) % u32_mod in
      if is_probationary p.status && leb threshold count
      then (record p { contribution_count = count; status = full }, true)
      else (record p { contribution_count = count }, false)

  unfoldable pub increment_agent_contribution : String → ℕ → Store P Bool
  increment_agent_contribution did threshold s = elim (lookup did s.agents) [
    | none ↦ (ok false, s)
    | some p ↦ (
      ok (contribute threshold p).1,
      record s { agents = insert did (contribute threshold p).0 s.agents },
    )
  ]

  unfoldable pub update_agent_reputation : String → P.f32.Carrier → Store P (Unit {0})
  update_agent_reputation did reputation s = elim (lookup did s.agents) [
    | none ↦ (err not_found, s)
    | some p ↦ (
      ok tt,
      record s {
        agents = insert did (record p { reputation = clamp_unit P.f32 reputation }) s.agents;
      },
    )
  ]

  -- `iter.sum()`
  sum_from : P.f64.Carrier → List P.f64.Carrier → P.f64.Carrier
  sum_from acc [] = acc
  sum_from acc (x ∷ xs) = sum_from (P.f64.add acc x) xs

  unfoldable pub sum : List P.f64.Carrier → P.f64.Carrier
  unfolding sum_from
  sum l = sum_from (P.f64.literal 0 1) l

  abbrev pub widened : List P.f32.Carrier → List P.f64.Carrier
  widened [] = []
  widened (x ∷ xs) = P.widen x ∷ widened xs

  abbrev pub squares : List P.f64.Carrier → List P.f64.Carrier
  squares [] = []
  squares (x ∷ xs) = P.f64.mul x x ∷ squares xs

  -- The mean and the population deviation, as both statistics methods compute them.
  unfoldable pub reputation_stats : List P.f32.Carrier → ReputationStats P
  reputation_stats reputations =
      if eqb (length reputations) 0
      then record { mean = P.f32.literal 0 1; stddev = P.f32.literal 0 1 }
      else let xs = widened reputations in
        let n = P.f64.literal (length reputations) 1 in
        let mean = P.f64.div (sum xs) n in
        let variance =
          P.f64.max (P.f64.sub (P.f64.div (sum (squares xs)) n) (P.f64.mul mean mean))
            (P.f64.literal 0 1) in
        record { mean = P.narrow mean; stddev = P.narrow (P.f64.sqrt variance) }

  abbrev pub agent_reputations : List (AgentProfile P) → List P.f32.Carrier
  agent_reputations [] = []
  agent_reputations (a ∷ rest) = a.reputation ∷ agent_reputations rest

  unfoldable pub agent_reputation_stats : Store P (ReputationStats P)
  unfolding reputation_stats
  agent_reputation_stats s = (ok (reputation_stats (agent_reputations (values s.agents))), s)

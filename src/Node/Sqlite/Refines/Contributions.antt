-- ===== src/Node/Sqlite/Refines/Contributions.antt =====
-- `increment_agent_contribution` of packages/node/src/storage/sqlite.rs against memory.rs: three
-- statements against one step.
use symantic_weft.Prelude.{
  ℕ, ◌+◌, ◌%◌, ◌<◌, Bool, true, false, ◌&&◌, none, some, [], ◌∷◌, String, ◌==◌, ◌≡◌, refl, ap, ◌∙◌,
  inl, inr, arith, Bool-cases, ok, leb, u32_mod, if◌then◌else◌, eq_refl,
}
use symantic_weft.Prelude.Map.{Map, lookup, insert, lookup-insert}
use symantic_weft.Prelude.Map.Distinct.{insert-All}
use symantic_weft.Platform.{Platform}
use symantic_weft.NodeApi.{AgentProfile}
use symantic_weft.Node.Memory.{Inner}
use symantic_weft.Node.Memory.Agents as Memory
use symantic_weft.Node.Memory.Agents.{contribute, is_probationary}
use symantic_weft.Node.Sqlite.{Engine, AgentRow, Tables}
use symantic_weft.Node.Sqlite.Agents.{
  row_profile, update_agents, count_up, graduate, check_graduation, increment_agent_contribution,
}
use symantic_weft.Node.Sqlite.Refines.Agree.{quiet, Agree, Simulates, simulated}
use symantic_weft.Node.Sqlite.Refines.Agents.{fits, profiles-insert, agents-cases, Agree-agents}

module _ {V : Type 0} where
  insert-insert : (k : String) (v w : V) (m : Map V) → insert k v (insert k w m) ≡ insert k v m
  unfolding insert
  insert-insert k v w [] = ground (arith, eq_refl k)
  insert-insert k v w ((j, x) ∷ m) = ground (arith, eq_refl k, insert-insert k v w m)

  lookup-insert_same : (k : String) (v : V) (m : Map V) → lookup k (insert k v m) ≡ some v
  lookup-insert_same k v m = ground (arith, lookup-insert k k v m, eq_refl k)

unwrapped : (n : ℕ) → n + 1 < u32_mod → (n + 1) % u32_mod ≡ n + 1
unwrapped n h = ground arith

module _ {P : Platform} where
  -- The row after the three statements, and whether the agent has graduated
  counted : ℕ → AgentRow P → AgentRow P × Bool
  counted threshold row =
      if (row.status == "probationary") && leb threshold (row.contribution_count + 1)
      then (graduate P (count_up P row), true)
      else (count_up P row, false)

  counted-contribute :
      (did : String) (threshold : ℕ) (row : AgentRow P)
      → row.contribution_count + 1 < u32_mod
      → contribute P threshold (row_profile P did row)
        ≡ (row_profile P did (counted threshold row).0, (counted threshold row).1)
  unfolding contribute counted
  counted-contribute did threshold row h = elim (Bool-cases (row.status == "probationary")) [
    | inl b ↦ elim (Bool-cases (leb threshold (row.contribution_count + 1))) [
      | inl d ↦ rw (unwrapped row.contribution_count h, b, d, contribute, counted) refl
      | inr d ↦ rw (unwrapped row.contribution_count h, b, d, contribute, counted, b) refl
    ]
    | inr b ↦ rw (unwrapped row.contribution_count h, b, contribute, counted, b) refl
  ]

  -- `UPDATE agents … WHERE did = ?` on a row that is there
  update_agents-found :
      (did : String) (f : AgentRow P → AgentRow P) (row : AgentRow P) (t : Tables P)
      → lookup did t.agents ≡ some row
      → update_agents P did f t ≡ (true, record t { agents = insert did (f row) t.agents })
  unfolding update_agents
  update_agents-found did f row t h = rw (h, update_agents) refl

module _ {P : Platform} (E : Engine P) where
  sql-none :
      (did : String) (threshold : ℕ) (t : Tables P)
      → lookup did t.agents ≡ none
      → increment_agent_contribution P E did threshold (quiet t) ≡ (ok false, quiet t)
  unfolding increment_agent_contribution update_agents
  sql-none did threshold t h = rw (h, increment_agent_contribution, update_agents) refl

  -- The last two statements
  graduated :
      (did : String) (threshold : ℕ) (row : AgentRow P) (t : Tables P)
      → lookup did t.agents ≡ some row
      → row.contribution_count < u32_mod
      → check_graduation P E did threshold (some row) (quiet t) ≡ (
          if (row.status == "probationary") && leb threshold row.contribution_count
          then (ok true, quiet (record t { agents = insert did (graduate P row) t.agents }))
          else (ok false, quiet t))
  graduated did threshold row t h k =
      elim (Bool-cases ((row.status == "probationary") && leb threshold row.contribution_count)) [
        | inl b ↦
            rw (fits row.contribution_count k, b, update_agents-found did (graduate P) row t h) refl
        | inr b ↦ rw (fits row.contribution_count k, b) refl
      ]

  started :
      (did : String) (threshold : ℕ) (row : AgentRow P) (t : Tables P)
      → lookup did t.agents ≡ some row
      → increment_agent_contribution P E did threshold (quiet t)
        ≡ check_graduation P E did threshold
            (some (count_up P row))
            (quiet (record t { agents = insert did (count_up P row) t.agents }))
  unfolding increment_agent_contribution
  started did threshold row t h =
      rw
        (
          update_agents-found did (count_up P) row t h,
          lookup-insert_same did (count_up P row) t.agents,
          increment_agent_contribution,
        )
        refl

  sql-some :
      (did : String) (threshold : ℕ) (row : AgentRow P) (t : Tables P)
      → lookup did t.agents ≡ some row
      → row.contribution_count + 1 < u32_mod
      → increment_agent_contribution P E did threshold (quiet t) ≡ (
        ok (counted threshold row).1,
        quiet (record t { agents = insert did (counted threshold row).0 t.agents }),
      )
  unfolding counted
  sql-some did threshold row t h k =
      started did threshold row t h
      ∙ graduated did threshold (count_up P row)
          (record t { agents = insert did (count_up P row) t.agents })
          (lookup-insert_same did (count_up P row) t.agents) k
      ∙ elim (Bool-cases
          ((row.status == "probationary") && leb threshold (row.contribution_count + 1))) [
            | inl b ↦
                rw (b, counted)
                  (ap (λ m. (ok true, quiet (record t { agents = m })))
                    (insert-insert did (graduate P (count_up P row)) (count_up P row) t.agents))
            | inr b ↦ rw (b, counted) refl
          ]

  counted-fits :
      (threshold : ℕ) (row : AgentRow P)
      → row.contribution_count + 1 < u32_mod
      → (counted threshold row).0.contribution_count < u32_mod
  unfolding counted
  counted-fits threshold row h =
      elim (Bool-cases
        ((row.status == "probationary") && leb threshold (row.contribution_count + 1))) [
          | inl b ↦ rw (b, counted) h
          | inr b ↦ rw (b, counted) h
        ]

  memory-none :
      (did : String) (threshold : ℕ) (s : Inner P)
      → lookup did s.agents ≡ none
      → Memory.increment_agent_contribution P did threshold s ≡ (ok false, s)
  unfolding Memory.increment_agent_contribution
  memory-none did threshold s h = rw (h, Memory.increment_agent_contribution) refl

  memory-some :
      (did : String) (threshold : ℕ) (row : AgentRow P) (s : Inner P)
      → lookup did s.agents ≡ some (row_profile P did row)
      → row.contribution_count + 1 < u32_mod
      → Memory.increment_agent_contribution P did threshold s ≡ (
        ok (counted threshold row).1,
        record s { agents = insert did (row_profile P did (counted threshold row).0) s.agents },
      )
  unfolding Memory.increment_agent_contribution
  memory-some did threshold row s h k =
      rw (h, Memory.increment_agent_contribution)
        (ap (λ r. (ok r.1, record s { agents = insert did r.0 s.agents }))
          (counted-contribute did threshold row k))

  pub increment_agent_contribution_refines :
      (did : String) (threshold : ℕ) (t : Tables P) (s : Inner P)
      → ((p : AgentProfile P) → lookup did s.agents ≡ some p → p.contribution_count + 1 < u32_mod)
      → Agree E t s
      → Simulates E
          (increment_agent_contribution P E did threshold (quiet t))
          (Memory.increment_agent_contribution P did threshold s)
  increment_agent_contribution_refines did threshold t s c a =
      elim (agents-cases did t s a.agents) [
        | inl (x, y) ↦
            simulated E (ok false) t s (sql-none did threshold t x) (memory-none did threshold s y)
              a
        | inr (row, x, y) ↦
            let fine = c (row_profile P did row) y in
            let new = (counted threshold row).0 in
            simulated E (ok (counted threshold row).1)
              (record t { agents = insert did new t.agents })
              (record s { agents = insert did (row_profile P did new) s.agents })
              (sql-some did threshold row t x fine) (memory-some did threshold row s y fine)
              (Agree-agents E _ _ t s
                (profiles-insert did new t.agents
                  ∙ ap (insert did (row_profile P did new)) a.agents)
                (insert-All (λ e. e.1.contribution_count < u32_mod) did new t.agents
                  (counted-fits threshold row fine) a.counts)
                a)
      ]

-- ===== src/Node/Sqlite/Refines/Agents.antt =====
-- The agent methods of packages/node/src/storage/sqlite.rs against those of memory.rs.
use symantic_weft.Prelude.{
  ℕ, ◌<◌, filter, not, true, Option, none, some, [], ◌∷◌, String, ◌==◌, ◌≡◌, refl, ap, ◌∙◌, sym,
  inl, inr, ◌⊎◌, All-among, arith, Bool-cases, Option-cases, ok, err, subst, ltb, u32_mod, eq_iff,
}
use symantic_weft.Prelude.Map.{Map, lookup, insert, remove, lookup-Among}
use symantic_weft.Prelude.Map.Distinct.{insert-All}
use symantic_weft.Platform.{Platform, clamp_unit}
use symantic_weft.NodeApi.{AgentProfile, AgentStatus, full, probationary}
use symantic_weft.Node.Storage.{not_found}
use symantic_weft.Node.Memory.{Inner}
use symantic_weft.Node.Memory.Agents as Memory
use symantic_weft.Node.Memory.Agents.{contribute, is_probationary}
use symantic_weft.Node.Sqlite.{Engine, AgentRow, Tables}
use symantic_weft.Node.Sqlite.Agents.{
  agent_row, row_profile, status_of, status_str, put_agent, get_agent, delete_agent, update_agents,
  update_agent_reputation,
}
use symantic_weft.Node.Sqlite.Refines.Agree.{
  quiet, profiles, AreCounts, Agree, Simulates, simulated,
}

status_of-status_str : (x : AgentStatus) → status_of (status_str x) ≡ x
status_of-status_str full = refl
status_of-status_str probationary = refl

pub fits : (n : ℕ) → n < u32_mod → ltb n u32_mod ≡ true
fits n h = ground arith

module _ {P : Platform} where
  profile_in : String → Option (AgentRow P) → Option (AgentProfile P)
  profile_in did none = none
  profile_in did (some row) = some (row_profile P did row)

  profiles-lookup :
      (did : String) (m : Map (AgentRow P))
      → lookup did (profiles m) ≡ profile_in did (lookup did m)
  unfolding lookup profile_in
  profiles-lookup did [] = refl
  profiles-lookup did ((k, row) ∷ m) = elim (Bool-cases (k == did)) [
    | inl b ↦ rw b (ap (λ d. some (row_profile P d row)) ((eq_iff k did).0 b))
    | inr b ↦ rw b (profiles-lookup did m)
  ]

  -- A profile is found exactly when its row is.
  profiles-lookup_cases :
      (did : String) (m : Map (AgentRow P))
      → ((lookup did m ≡ none) × (lookup did (profiles m) ≡ none))
        ⊎ ((row : AgentRow P) × (lookup did m ≡ some row)
            × (lookup did (profiles m) ≡ some (row_profile P did row)))
  unfolding profile_in
  profiles-lookup_cases did m = elim (Option-cases (lookup did m)) [
    | inl e ↦ inl (e, profiles-lookup did m ∙ ap (profile_in did) e)
    | inr (row, e) ↦ inr (row, e, profiles-lookup did m ∙ ap (profile_in did) e)
  ]

  pub agents-cases :
      (did : String) (t : Tables P) (s : Inner P)
      → profiles t.agents ≡ s.agents
      → ((lookup did t.agents ≡ none) × (lookup did s.agents ≡ none))
        ⊎ ((row : AgentRow P) × (lookup did t.agents ≡ some row)
            × (lookup did s.agents ≡ some (row_profile P did row)))
  agents-cases did t s e =
      subst
        (λ m.
          ((lookup did t.agents ≡ none) × (lookup did m ≡ none))
          ⊎ ((row : AgentRow P) × (lookup did t.agents ≡ some row)
              × (lookup did m ≡ some (row_profile P did row))))
        e (profiles-lookup_cases did t.agents)

  pub profiles-insert :
      (did : String) (row : AgentRow P) (m : Map (AgentRow P))
      → profiles (insert did row m) ≡ insert did (row_profile P did row) (profiles m)
  unfolding insert
  profiles-insert did row [] = refl
  profiles-insert did row ((k, old) ∷ m) = ground (arith, profiles-insert did row m)

  profiles-remove :
      (did : String) (m : Map (AgentRow P)) → profiles (remove did m) ≡ remove did (profiles m)
  unfolding remove
  profiles-remove did [] = refl
  profiles-remove did ((k, old) ∷ m) = ground (arith, profiles-remove did m)

  AreCounts-remove : (did : String) (m : Map (AgentRow P)) → AreCounts m → AreCounts (remove did m)
  unfolding remove
  AreCounts-remove did [] h = tt
  AreCounts-remove did ((k, old) ∷ m) h = ground (arith, AreCounts-remove did m)

  pub AreCounts-lookup :
      (did : String) (row : AgentRow P) (m : Map (AgentRow P))
      → AreCounts m
      → lookup did m ≡ some row
      → row.contribution_count < u32_mod
  AreCounts-lookup did row m h k =
      All-among (λ (e : String × AgentRow P). e.1.contribution_count < u32_mod) (did, row) m h
        (lookup-Among did row m k)

  -- A profile is read back as it was written, where a widened `f32` narrows to itself.
  row_profile-agent_row :
      ((x : P.f32.Carrier) → P.narrow (P.widen x) ≡ x)
      → (p : AgentProfile P) → row_profile P p.did (agent_row P p) ≡ p
  row_profile-agent_row exact p =
      λ i. record p { status = status_of-status_str p.status i; reputation = exact p.reputation i }

module _ {P : Platform} (E : Engine P) where
  pub Agree-agents :
      (rows : Map (AgentRow P)) (agents : Map (AgentProfile P)) (t : Tables P) (s : Inner P)
      → profiles rows ≡ agents
      → AreCounts rows
      → Agree E t s
      → Agree E (record t { agents = rows }) (record s { agents = agents })
  Agree-agents rows agents t s e c a = record {
    units = a.units;
    agents = e;
    counts = c;
    follows = a.follows;
    peers = a.peers;
    cursors = a.cursors;
    node_config = a.node_config;
  }

module _ {P : Platform} (E : Engine P)
    (exact : (x : P.f32.Carrier) → P.narrow (P.widen x) ≡ x) where
  pub put_agent_refines :
      (p : AgentProfile P) (t : Tables P) (s : Inner P)
      → p.contribution_count < u32_mod
      → Agree E t s
      → Simulates E (put_agent P p (quiet t)) (Memory.put_agent P p s)
  unfolding put_agent Memory.put_agent
  put_agent_refines p t s c a =
      simulated E (ok tt) (record t { agents = insert p.did (agent_row P p) t.agents })
        (record s { agents = insert p.did p s.agents }) refl refl
        (Agree-agents E _ _ t s
          (profiles-insert p.did (agent_row P p) t.agents
            ∙ (λ i. insert p.did (row_profile-agent_row exact p i) (a.agents i)))
          (insert-All (λ e. e.1.contribution_count < u32_mod) p.did (agent_row P p) t.agents c
            a.counts)
          a)

  get_agent-none :
      (did : String) (t : Tables P)
      → lookup did t.agents ≡ none
      → get_agent P E did (quiet t) ≡ (ok none, quiet t)
  unfolding get_agent
  get_agent-none did t h = rw (h, get_agent) refl

  get_agent-some :
      (did : String) (row : AgentRow P) (t : Tables P)
      → lookup did t.agents ≡ some row
      → row.contribution_count < u32_mod
      → get_agent P E did (quiet t) ≡ (ok (some (row_profile P did row)), quiet t)
  unfolding get_agent
  get_agent-some did row t h k = rw (h, fits row.contribution_count k, get_agent) refl

  pub get_agent_refines :
      (did : String) (t : Tables P) (s : Inner P)
      → Agree E t s
      → Simulates E (get_agent P E did (quiet t)) (Memory.get_agent P did s)
  unfolding Memory.get_agent
  get_agent_refines did t s a = elim (agents-cases did t s a.agents) [
    | inl (x, y) ↦ (t, get_agent-none did t x ∙ ap (λ o. (ok o, quiet t)) (sym y), a)
    | inr (row, x, y) ↦ (
      t,
      get_agent-some did row t x (AreCounts-lookup did row t.agents a.counts x)
          ∙ ap (λ o. (ok o, quiet t)) (sym y),
      a,
    )
  ]

  pub delete_agent_refines :
      (did : String) (t : Tables P) (s : Inner P)
      → Agree E t s
      → Simulates E (delete_agent P did (quiet t)) (Memory.delete_agent P did s)
  unfolding delete_agent Memory.delete_agent
  delete_agent_refines did t s a = (
    record t { agents = remove did t.agents; inbox = filter (λ row. not (row.0 == did)) t.inbox },
    refl,
    record {
      units = a.units;
      agents = profiles-remove did t.agents ∙ ap (remove did) a.agents;
      counts = AreCounts-remove did t.agents a.counts;
      follows = a.follows;
      peers = a.peers;
      cursors = a.cursors;
      node_config = a.node_config;
    },
  )

  sql_update-none :
      (did : String) (x : P.f32.Carrier) (t : Tables P)
      → lookup did t.agents ≡ none
      → update_agent_reputation P did x (quiet t) ≡ (err not_found, quiet t)
  unfolding update_agent_reputation update_agents
  sql_update-none did x t h = rw (h, update_agent_reputation, update_agents) refl

  sql_update-some :
      (did : String) (x : P.f32.Carrier) (row : AgentRow P) (t : Tables P)
      → lookup did t.agents ≡ some row
      → update_agent_reputation P did x (quiet t) ≡ (
        ok tt,
        quiet (record t {
          agents = insert did (record row { reputation = P.widen (clamp_unit P.f32 x) }) t.agents;
        }),
      )
  unfolding update_agent_reputation update_agents
  sql_update-some did x row t h = rw (h, update_agent_reputation, update_agents) refl

  memory_update-none :
      (did : String) (x : P.f32.Carrier) (s : Inner P)
      → lookup did s.agents ≡ none
      → Memory.update_agent_reputation P did x s ≡ (err not_found, s)
  unfolding Memory.update_agent_reputation
  memory_update-none did x s h = rw (h, Memory.update_agent_reputation) refl

  memory_update-some :
      (did : String) (x : P.f32.Carrier) (p : AgentProfile P) (s : Inner P)
      → lookup did s.agents ≡ some p
      → Memory.update_agent_reputation P did x s ≡ (
        ok tt,
        record s { agents = insert did (record p { reputation = clamp_unit P.f32 x }) s.agents },
      )
  unfolding Memory.update_agent_reputation
  memory_update-some did x p s h = rw (h, Memory.update_agent_reputation) refl

  pub update_agent_reputation_refines :
      (did : String) (x : P.f32.Carrier) (t : Tables P) (s : Inner P)
      → Agree E t s
      → Simulates E
          (update_agent_reputation P did x (quiet t))
          (Memory.update_agent_reputation P did x s)
  update_agent_reputation_refines did x t s a = elim (agents-cases did t s a.agents) [
    | inl (i, j) ↦
        simulated E (err not_found) t s (sql_update-none did x t i) (memory_update-none did x s j) a
    | inr (row, i, j) ↦
        simulated E (ok tt) _ _ (sql_update-some did x row t i) (memory_update-some did x _ s j) (
          Agree-agents E _ _ t s
            (profiles-insert did _ t.agents ∙ (λ k.
              insert did
                (record (row_profile P did row) { reputation = exact (clamp_unit P.f32 x) k })
                (a.agents k)))
            (insert-All (λ e. e.1.contribution_count < u32_mod) did _ t.agents
              (AreCounts-lookup did row t.agents a.counts i) a.counts)
            a)
  ]

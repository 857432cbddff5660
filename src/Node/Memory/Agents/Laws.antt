-- ===== src/Node/Memory/Agents/Laws.antt =====
-- Graduation from probation, in packages/node/src/storage/memory.rs.
use symantic_weft.Prelude.{
  ℕ, zero, suc, ◌+◌, ◌%◌, ◌<◌, not, ◌&&◌, some, String, ◌≡◌, refl, ap, ◌∙◌, inl, inr, ok, leb, eqb,
  u32_mod, arith, Bool-cases, eq_refl,
}
use symantic_weft.Prelude.Map.{lookup, insert, lookup-insert}
use symantic_weft.Platform.{Platform}
use symantic_weft.NodeApi.{AgentProfile, AgentStatus, full, probationary}
use symantic_weft.Node.Memory.{Inner}
use symantic_weft.Node.Memory.Agents.{
  is_full, is_probationary, contribute, increment_agent_contribution,
}

full-probationary : (a : AgentStatus) → is_probationary a ≡ not (is_full a)
full-probationary full = refl
full-probationary probationary = refl

module _ {P : Platform} where
  -- So many contributions of one agent.
  pub contribute_times : ℕ → String → ℕ → Inner P → Inner P
  contribute_times zero did threshold s = s
  contribute_times (suc n) did threshold s =
      (increment_agent_contribution P did threshold (contribute_times n did threshold s)).1

  increment-found :
      (did : String) (threshold : ℕ) (q : AgentProfile P) (s : Inner P)
      → lookup did s.agents ≡ some q
      → increment_agent_contribution P did threshold s ≡ (
        ok (contribute P threshold q).1,
        record s { agents = insert did (contribute P threshold q).0 s.agents },
      )
  unfolding increment_agent_contribution
  increment-found did threshold q s h = rw (h, increment_agent_contribution) refl

  -- The state of an agent on probation after `n` contributions.
  record IsAfter (p : AgentProfile P) (threshold n : ℕ) (q : AgentProfile P) : Type 0 where
    count : q.contribution_count ≡ n
    status : is_full q.status ≡ leb threshold n
    same_did : q.did ≡ p.did
    same_reputation : q.reputation ≡ p.reputation

  contribute-IsAfter :
      (p q : AgentProfile P) (threshold n : ℕ)
      → 0 < threshold
      → suc n < u32_mod
      → IsAfter p threshold n q
      → IsAfter p threshold (suc n) (contribute P threshold q).0
        × ((contribute P threshold q).1 ≡ eqb threshold (suc n))
  unfolding contribute
  contribute-IsAfter p q threshold n pos small h =
      let wrap : (q.contribution_count + 1) % u32_mod ≡ suc n = omega (arith, h.count) in
      let other = full-probationary q.status in
      elim (Bool-cases
        (is_probationary q.status && leb threshold ((q.contribution_count + 1) % u32_mod))) [
          | inl e ↦ rw e (
            record {
              count = wrap;
              status = grind arith;
              same_did = h.same_did;
              same_reputation = h.same_reputation;
            },
            grind arith,
          )
          | inr e ↦ rw e (
            record {
              count = wrap;
              status = grind arith;
              same_did = h.same_did;
              same_reputation = h.same_reputation;
            },
            grind arith,
          )
        ]

  contribute_times-IsAfter :
      (p : AgentProfile P) (threshold n : ℕ) (did : String) (s : Inner P)
      → p.status ≡ probationary
      → p.contribution_count ≡ 0
      → 0 < threshold
      → n < u32_mod
      → lookup did s.agents ≡ some p
      → (q : AgentProfile P) × (lookup did (contribute_times n did threshold s).agents ≡ some q)
        × IsAfter p threshold n q
  unfolding contribute_times
  contribute_times-IsAfter p threshold zero did s on_probation new pos small h = (
    p,
    h,
    record {
      count = new;
      status = rw on_probation (grind arith);
      same_did = refl;
      same_reputation = refl;
    },
  )
  contribute_times-IsAfter p threshold (suc n) did s on_probation new pos small h =
      let (q, found, after) =
        contribute_times-IsAfter p threshold n did s on_probation new pos (omega arith) h in
      (
        (contribute P threshold q).0,
        ap (λ r. lookup did r.1.agents)
              (increment-found did threshold q (contribute_times n did threshold s) found)
            ∙ lookup-insert did did (contribute P threshold q).0
                (contribute_times n did threshold s).agents
            ∙ rw (eq_refl did) refl,
        (contribute-IsAfter p q threshold n pos small after).0,
      )

-- An agent on probation without contributions, under a positive threshold: after `n` contributions
-- the profile counts `n`, it has kept its DID and reputation, and it is a full member exactly where
-- the threshold is reached; the next contribution reports graduation exactly where it is the one
-- that reaches the threshold. The count is taken below the wrap of `u32`.
pub graduation :
    (P : Platform) (p : AgentProfile P) (threshold n : ℕ) (did : String) (s : Inner P)
    → p.status ≡ probationary
    → p.contribution_count ≡ 0
    → 0 < threshold
    → suc n < u32_mod
    → lookup did s.agents ≡ some p
    → ((q : AgentProfile P) × (lookup did (contribute_times n did threshold s).agents ≡ some q)
        × (q.contribution_count ≡ n)
        × (q.did ≡ p.did)
        × (q.reputation ≡ p.reputation)
        × (is_full q.status ≡ leb threshold n))
      × ((increment_agent_contribution P did threshold (contribute_times n did threshold s)).0
          ≡ ok (eqb threshold (suc n)))
graduation P p threshold n did s on_probation new pos small h =
    let (q, found, after) =
      contribute_times-IsAfter p threshold n did s on_probation new pos (omega arith) h in
    (
      (q, found, after.count, after.same_did, after.same_reputation, after.status),
      ap (λ r. r.0) (increment-found did threshold q (contribute_times n did threshold s) found)
          ∙ ap ok (contribute-IsAfter p q threshold n pos small after).1,
    )

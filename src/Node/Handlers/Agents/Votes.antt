-- ===== src/Node/Handlers/Agents/Votes.antt =====
-- What a vote on an agent's reputation does, in packages/node/src/handlers/agents.rs.
use symantic_weft.Prelude.{
  false, some, String, ◌==◌, ◌≡◌, ◌⊎◌, inl, inr, refl, ok, err, Bool-cases, Option-cases, eq_refl,
  concat,
}
use symantic_weft.Prelude.Map.{lookup, insert, values, lookup-insert}
use symantic_weft.Platform.{Platform, clamp_unit}
use symantic_weft.NodeApi.{AgentProfile, ReputationUpdate}
use symantic_weft.Node.Memory.{Inner}
use symantic_weft.Node.Memory.Agents.{
  get_agent, agent_reputation_stats, agent_reputations, reputation_stats, update_agent_reputation,
}
use symantic_weft.Node.Error.{AppError}
use symantic_weft.Node.State.{AppState, NodeConfig}
use symantic_weft.Node.Handlers.Agents.{
  update_reputation, is_outside, voting_threshold, weighted, below_threshold, agent_not_found,
}

module _ {P : Platform} where
  -- The least reputation that may vote in this state.
  abbrev pub threshold_in : NodeConfig P → AppState P → P.f32.Carrier
  threshold_in config s =
      voting_threshold P config (reputation_stats P (agent_reputations P (values s.storage.agents)))

  abbrev pub voted : AgentProfile P → P.f32.Carrier → AgentProfile P → AgentProfile P
  voted target proposed voter = record target {
    reputation = clamp_unit P.f32 (weighted P target.reputation proposed voter.reputation);
  }

  abbrev pub with_agent : String → AgentProfile P → AppState P → AppState P
  with_agent did q s = record s {
    storage = record s.storage { agents = insert did q s.storage.agents };
  }

module _ {P : Platform} where
  update_agent_reputation-found :
      (did : String) (r : P.f32.Carrier) (target : AgentProfile P) (s : Inner P)
      → lookup did s.agents ≡ some target
      → update_agent_reputation P did r s ≡ (
        ok tt,
        record s {
          agents = insert did (record target { reputation = clamp_unit P.f32 r }) s.agents;
        },
      )
  unfolding update_agent_reputation
  update_agent_reputation-found did r target s f = rw (f, update_agent_reputation) refl

-- A vote is refused and changes nothing, or it is counted: the proposed value lies in the unit
-- interval, the voter is another registered agent whose reputation is not below the threshold of
-- the community, the target is registered, and the one thing that changes is the target's
-- reputation, which becomes the clamped mean weighted by the reputation of the voter.
pub update_reputation_cases :
    (P : Platform) (config : NodeConfig P) (did voter_did : String) (update : ReputationUpdate P)
    (s : AppState P)
    → ((e : AppError) × (update_reputation P config did voter_did update s ≡ (err e, s)))
      ⊎ ((is_outside P update.reputation ≡ false)
          × ((voter_did == did) ≡ false)
          × (voter : AgentProfile P) × (lookup voter_did s.storage.agents ≡ some voter)
          × (P.f32.lt voter.reputation (threshold_in config s) ≡ false)
          × (target : AgentProfile P) × (lookup did s.storage.agents ≡ some target)
          × (update_reputation P config did voter_did update s ≡ (
            ok (200, voted target update.reputation voter),
            with_agent did (voted target update.reputation voter) s,
          )))
unfolding update_reputation get_agent agent_reputation_stats
update_reputation_cases P config did voter_did update s =
    elim (Bool-cases (is_outside P update.reputation)) [
      | inl a ↦
          inl (AppError.bad_request "reputation must be a finite number in [0.0, 1.0]", rw a refl)
      | inr a ↦ elim (Bool-cases (voter_did == did)) [
        | inl b ↦
            inl (AppError.forbidden "an agent cannot update its own reputation", rw (a, b) refl)
        | inr b ↦ elim (Option-cases (lookup voter_did s.storage.agents)) [
          | inl c ↦ inl (
            AppError.forbidden (
                concat "caller is not a registered agent; "
                  "reputation updates are community-internal"),
            rw (a, b, c) refl,
          )
          | inr (voter, c) ↦ elim (Bool-cases (P.f32.lt voter.reputation (threshold_in config s))) [
            | inl d ↦
                inl
                  (below_threshold P voter.reputation (threshold_in config s), rw (a, b, c, d) refl)
            | inr d ↦ elim (Option-cases (lookup did s.storage.agents)) [
              | inl f ↦ inl (agent_not_found did, rw (a, b, c, d, f) refl)
              | inr (target, f) ↦ inr (
                a,
                b,
                voter,
                c,
                d,
                target,
                f,
                rw (a, b, c, d, f)
                    (rw
                      (
                        update_agent_reputation-found did
                            (weighted P target.reputation update.reputation voter.reputation) target
                            s.storage f,
                        lookup-insert did did (voted target update.reputation voter)
                            s.storage.agents,
                        eq_refl did,
                      )
                      refl),
              )
            ]
          ]
        ]
      ]
    ]

-- ===== src/Node/Handlers/Follows.antt =====
-- packages/node/src/handlers/follows.rs: the follow graph.
use symantic_weft.Prelude.{ℕ, none, List, [], ◌∷◌, String}
use symantic_weft.Prelude.Action.{pure, from_result, ◌>>=◌, ◌>>◌}
use symantic_weft.Platform.{Platform}
use symantic_weft.NodeApi.{FollowRequest, FollowEntry, FollowListResponse}
use symantic_weft.Node.Memory.Agents.{get_agent, increment_agent_contribution}
use symantic_weft.Node.Memory.Follows.{add_follow, remove_follow, list_following, list_followers}
use symantic_weft.Node.Error.{AppError}
use symantic_weft.Node.State.{NodeConfig, Handler, stored, present}
use symantic_weft.Node.Handlers.Agents.{same_or, agent_not_found}

abbrev pub entries : List String → List FollowEntry
entries [] = []
entries (d ∷ rest) = record { did = d; inbox_url = none } ∷ entries rest

module _ (P : Platform) where
  unfoldable pub follow :
      NodeConfig P → String → String → FollowRequest → Handler P (ℕ × FollowEntry)
  follow config did caller req = do
    from_result
        (same_or caller did (AppError.forbidden "cannot follow on behalf of a different agent"))
    found ← stored (get_agent P did)
    _ ← present found (agent_not_found did)
    stored (add_follow P did req.target)
    _ ← stored (increment_agent_contribution P did config.probation_threshold)
    pure (200, record { did = req.target; inbox_url = none })

  unfoldable pub unfollow : String → String → String → Handler P ℕ
  unfollow did target caller = do
    from_result
        (same_or caller did (AppError.forbidden "cannot unfollow on behalf of a different agent"))
    stored (remove_follow P did target)
    pure 204

  -- the handlers `list_following` and `list_followers`
  unfoldable pub show_following : String → Handler P FollowListResponse
  show_following did = do
    dids ← stored (list_following P did)
    pure (record { items = entries dids; next_cursor = none })

  unfoldable pub show_followers : String → Handler P FollowListResponse
  show_followers did = do
    dids ← stored (list_followers P did)
    pure (record { items = entries dids; next_cursor = none })

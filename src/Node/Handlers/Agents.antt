-- ===== src/Node/Handlers/Agents.antt =====
-- packages/node/src/handlers/agents.rs: registration, admission, inboxes and votes. The extractors
-- of packages/node/src/middleware/auth.rs have run: a handler is given the caller's DID.
pub mod Votes
use symantic_weft.Prelude.{
  ℕ, Bool, false, not, ◌||◌, Option, none, some, List, String, ◌==◌, if◌then◌else◌, Result, ok, err,
  is_some, concat,
}
use symantic_weft.Prelude.Action.{pure, modify, from_result, ◌>>=◌, ◌>>◌}
use symantic_weft.Platform.{Platform, clamp_unit}
use symantic_weft.Core.Types.{SemanticUnit}
use symantic_weft.Core.Validation.{validate_unit}
use symantic_weft.NodeApi.{
  AgentProfile, AgentStatus, full, probationary, RegisterRequest, ApplyRequest, ReputationUpdate,
  InboxResponse, clamp_or, last_id,
}
use symantic_weft.Node.Storage.{StorageError, ReputationStats}
use symantic_weft.Node.Memory.Agents.{
  put_agent, get_agent, delete_agent, is_full, agent_reputation_stats, update_agent_reputation,
}
use symantic_weft.Node.Memory.Settings.{get_inbox, deliver_to_inbox}
use symantic_weft.Node.Error.{AppError}
use symantic_weft.Node.State.{
  AppState, NodeConfig, admission_webhook, Handler, stored, attempt, present, spawn,
}
use symantic_weft.Node.Handlers.Units.{or_unprocessable}

pub record InboxQueryParams : Type 0 where
  pub after : Option String
  pub limit : Option ℕ

abbrev pub agent_not_found : String → AppError
agent_not_found did = AppError.not_found (concat "agent " (concat did " not found"))

-- `if a != b { return Err(e) }`
abbrev pub same_or : String → String → AppError → Result (Unit {0}) AppError
same_or a b e = if a == b then ok tt else err e

module _ (P : Platform) where
  abbrev pub fresh_profile :
      String → String → Option String → Option String → AgentStatus → AgentProfile P
  fresh_profile did inbox_url display_name public_key status = record {
    did = did;
    inbox_url = inbox_url;
    display_name = display_name;
    public_key = public_key;
    status = status;
    contribution_count = 0;
    reputation = P.f32.literal 1 2;
  }

  unfoldable pub register : String → String → RegisterRequest → Handler P (ℕ × AgentProfile P)
  register did caller req = do
    from_result (
        same_or req.did did
          (AppError.bad_request "did in request body must match the {did} path parameter"))
    from_result (same_or caller did (AppError.forbidden "cannot register as a different DID"))
    stored (put_agent P (fresh_profile req.did req.inbox_url req.display_name req.public_key full))
    pure (201, fresh_profile req.did req.inbox_url req.display_name req.public_key full)

  -- the handler `get_agent`
  unfoldable pub show_agent : String → Handler P (AgentProfile P)
  show_agent did = do found ← stored (get_agent P did); present found (agent_not_found did)

  -- `if has_more { items.last().map(|u| u.id.clone()) } else { None }`
  abbrev pub next_cursor : List (SemanticUnit P) → Bool → Option String
  next_cursor items has_more = if has_more then last_id P items else none

  unfoldable pub inbox : String → String → InboxQueryParams → Handler P (InboxResponse P)
  inbox did caller params = do
    found ← stored (get_agent P did)
    _ ← present found (agent_not_found did)
    from_result (same_or caller did (agent_not_found did))
    page ← stored (get_inbox P did params.after (clamp_or 1 100 20 params.limit))
    pure (record { items = page.0; next_cursor = next_cursor page.0 page.1 })

  -- the handler `delete_agent`
  unfoldable pub deregister : String → String → Handler P ℕ
  deregister did caller = do
    from_result (same_or caller did (AppError.forbidden "cannot deregister a different agent"))
    found ← stored (get_agent P did)
    _ ← present found (agent_not_found did)
    stored (delete_agent P did)
    pure 204

  unfoldable pub inbox_deliver : String → SemanticUnit P → Handler P ℕ
  inbox_deliver did unit = do
    found ← stored (get_agent P did)
    _ ← present found (agent_not_found did)
    from_result (or_unprocessable P (validate_unit P unit))
    stored (deliver_to_inbox P did unit)
    pure 201

  abbrev pub is_full_member : Option (AgentProfile P) → Bool
  is_full_member none = false
  is_full_member (some p) = is_full p.status

  abbrev pub sponsor_valid : Option String → Handler P Bool
  sponsor_valid none = pure false
  sponsor_valid (some s) = do found ← stored (get_agent P s); pure (is_full_member found)

  abbrev pub notify_operator :
      Option String → AgentProfile P → Option String → Bool → AppState P → AppState P
  notify_operator none profile sponsor valid s = s
  notify_operator (some url) profile sponsor valid s =
      spawn (admission_webhook url profile sponsor valid) s

  unfoldable pub apply :
      NodeConfig P → String → String → ApplyRequest → Handler P (ℕ × AgentProfile P)
  apply config did caller req = do
    from_result (
        same_or req.did did
          (AppError.bad_request "did in request body must match the {did} path parameter"))
    from_result (same_or caller did (AppError.forbidden "cannot apply as a different DID"))
    found ← stored (get_agent P did)
    from_result (
        if is_some found
        then err (AppError.conflict (concat "agent " (concat did " is already registered")))
        else ok tt)
    valid ← sponsor_valid req.sponsor_did
    let profile = fresh_profile req.did req.inbox_url req.display_name req.public_key probationary
    stored (put_agent P profile)
    modify (notify_operator config.operator_webhook_url profile req.sponsor_did valid)
    pure (201, profile)

  -- `!r.is_finite() || r < 0.0 || r > 1.0`
  unfoldable pub is_outside : P.f32.Carrier → Bool
  is_outside r =
      not (P.f32.is_finite r) || (P.f32.lt r (P.f32.literal 0 1) || P.f32.lt (P.f32.literal 1 1) r)

  -- `(mean - σ * stddev).max(0.0)`
  unfoldable pub voting_threshold : NodeConfig P → ReputationStats P → P.f32.Carrier
  voting_threshold config stats =
      P.f32.max (P.f32.sub stats.mean (P.f32.mul config.reputation_vote_sigma_factor stats.stddev))
        (P.f32.literal 0 1)

  -- `(current * (1.0 - weight) + proposed * weight).clamp(0.0, 1.0)`
  unfoldable pub weighted : P.f32.Carrier → P.f32.Carrier → P.f32.Carrier → P.f32.Carrier
  weighted current proposed weight = clamp_unit P.f32 (
      P.f32.add (P.f32.mul current (P.f32.sub (P.f32.literal 1 1) weight))
        (P.f32.mul proposed weight))

  -- The refusal of a caller below the threshold
  abbrev pub below_threshold : P.f32.Carrier → P.f32.Carrier → AppError
  below_threshold reputation threshold = AppError.forbidden (
      concat "caller reputation " (
        concat (P.fixed3 reputation)
          (concat " is below the community voting threshold " (P.fixed3 threshold))))

  -- `map_err` of the update: a missing row is 404, anything else is internal
  abbrev pub or_missing : AppError → Result (Unit {0}) StorageError → Result (Unit {0}) AppError
  or_missing missing (ok _) = ok tt
  or_missing missing (err StorageError.not_found) = err missing
  or_missing missing (err (StorageError.conflict m)) =
      err (AppError.internal (concat "conflict: " m))
  or_missing missing (err (StorageError.internal m)) =
      err (AppError.internal (concat "internal storage error: " m))

  unfoldable pub update_reputation :
      NodeConfig P → String → String → ReputationUpdate P → Handler P (ℕ × AgentProfile P)
  update_reputation config did caller_did update = do
    from_result (
        if is_outside update.reputation
        then err (AppError.bad_request "reputation must be a finite number in [0.0, 1.0]")
        else ok tt)
    from_result (
        if caller_did == did
        then err (AppError.forbidden "an agent cannot update its own reputation")
        else ok tt)
    voter ← stored (get_agent P caller_did)
    caller ← present voter (
        AppError.forbidden
          (concat "caller is not a registered agent; " "reputation updates are community-internal"))
    stats ← stored (agent_reputation_stats P)
    from_result (
        if P.f32.lt caller.reputation (voting_threshold config stats)
        then err (below_threshold caller.reputation (voting_threshold config stats))
        else ok tt)
    found ← stored (get_agent P did)
    target ← present found (agent_not_found did)
    outcome ← attempt (
        update_agent_reputation P did
          (weighted target.reputation update.reputation caller.reputation))
    from_result (or_missing (agent_not_found did) outcome)
    written ← stored (get_agent P did)
    profile ← present written (agent_not_found did)
    pure (200, profile)

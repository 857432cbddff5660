-- ===== src/Node/Handlers/Units/Fanout.antt =====
-- `local_fanout` and `notify_author_of_failure` of packages/node/src/handlers/units.rs: delivery to
-- the inboxes of this node.
use symantic_weft.Prelude.{
  some, [], ◌∷◌, String, if◌then◌else◌, is_some, unwrap_or, has_char, concat,
}
use symantic_weft.Prelude.Action.{Action, pure, ignore, for_each, ◌>>=◌}
use symantic_weft.Platform.{Platform}
use symantic_weft.Core.Types.{
  SemanticUnit, Visibility, public, network, limited, constraint, notifies, effective_visibility,
  new_unit,
}
use symantic_weft.Node.Storage.{StorageError}
use symantic_weft.Node.Storage.Interface.{Storage}

-- The unit that reports a failed delivery, given a fresh id and the time
unfoldable pub failure_notice :
    (P : Platform) → String → String → String → SemanticUnit P → String → String → SemanticUnit P
failure_notice P fresh_id now node_did original recipient reason =
    let message = concat "Delivery of unit " (
      concat original.id
        (concat " to recipient " (concat recipient (concat " failed: " reason)))) in
    record (new_unit {P = P} fresh_id now constraint message node_did) {
      references = some (record { id = original.id; rel = notifies } ∷ []);
      visibility = some limited;
      audience = some (original.author ∷ []);
    }

module _ (P : Platform) (S : Storage P) where
  -- a step on the storage that may fail
  abbrev pub Call : Type 0
  Call = Action S.State StorageError (Unit {0})

  -- `if storage.get_agent(&did).await?.is_some() { … deliver_to_inbox(&did, &unit) … }`
  unfoldable pub deliver_registered : SemanticUnit P → String → Call
  deliver_registered unit did = do
    agent ← S.get_agent did
    (if is_some agent then ignore (S.deliver_to_inbox did unit) else pure tt)

  -- The body of the loop over the audience: an entry with an `@` is on a remote node.
  unfoldable pub deliver_local : SemanticUnit P → String → Call
  unfolding deliver_registered
  deliver_local unit did = if has_char b'@' did then pure tt else deliver_registered unit did

  -- The `match` on the visibility
  unfoldable pub fan_out_as : SemanticUnit P → Visibility → Call
  unfolding deliver_local
  fan_out_as unit public = pure tt
  fan_out_as unit network = do
    followers ← S.list_followers unit.author
    for_each (deliver_registered unit) followers
  fan_out_as unit limited = for_each (deliver_local unit) (unwrap_or unit.audience [])

  unfoldable pub local_fanout : SemanticUnit P → Call
  unfolding fan_out_as
  local_fanout unit = fan_out_as unit (effective_visibility unit)

  unfoldable pub notify_author_of_failure :
      String → String → String → SemanticUnit P → String → String → Call
  notify_author_of_failure fresh_id now node_did original recipient reason = do
    agent ← S.get_agent original.author
    (if is_some agent
        then ignore (
            S.deliver_to_inbox original.author
              (failure_notice P fresh_id now node_did original recipient reason))
        else pure tt)

-- ===== src/Node/Federation.antt =====
-- packages/node/src/federation.rs: pulling the units of a peer, page by page.
pub mod Local
pub mod Serve
pub mod Replication
use symantic_weft.Prelude.{
  ℕ, zero, suc, Bool, true, false, Option, none, some, String, ◌==◌, if◌then◌else◌, Result, ok, err,
  unwrap_or, find,
}
use symantic_weft.Prelude.Action.{Action, pure, for_each, ◌>>=◌, ◌>>◌}
use symantic_weft.Prelude.Map.{Map, lookup}
use symantic_weft.Platform.{Platform}
use symantic_weft.Core.Types.{SemanticUnit}
use symantic_weft.NodeApi.{ListResponse}
use symantic_weft.Node.Storage.{StorageError}
use symantic_weft.Node.Memory.{Inner, Store}
use symantic_weft.Node.Memory.Units.{put_unit, set_unit_credibility}
use symantic_weft.Node.Memory.Peers.{list_peers}
use symantic_weft.Node.Memory.Settings.{get_cursor, set_cursor}

pub data SyncError : Type 0 where
  http : String → SyncError
  bad_status : ℕ → SyncError
  storage : StorageError → SyncError

module _ (P : Platform) where
  abbrev pub Sync : Type 0 → Type 0
  Sync A = Action (Inner P) SyncError A

  -- What `GET {api_base}/sync?after={cursor}&limit=500` comes to, with its errors
  abbrev pub Remote : Type 0
  Remote = Option String → Result (ListResponse P) SyncError

  abbrev pub to_sync : {A : Type 0} → Result A StorageError → Result A SyncError
  to_sync (ok a) = ok a
  to_sync (err e) = err (storage e)

  abbrev pub local : {A : Type 0} → Store P A → Sync A
  local m s = (to_sync (m s).0, (m s).1)

  -- Whether the unit is new: a conflict is no failure
  abbrev pub is_new : Result (Unit {0}) StorageError → Result Bool SyncError
  is_new (ok _) = ok true
  is_new (err (StorageError.conflict _)) = ok false
  is_new (err StorageError.not_found) = err (storage StorageError.not_found)
  is_new (err (StorageError.internal m)) = err (storage (StorageError.internal m))

  abbrev pub try_put : SemanticUnit P → Sync Bool
  try_put unit s = (is_new (put_unit P unit s).0, (put_unit P unit s).1)

  unfoldable pub peer_reputation_for : String → Inner P → P.f32.Carrier
  peer_reputation_for api_base s = elim (list_peers P s).0 [
    | err e ↦ P.f32.literal 1 2
    | ok peers ↦ elim (find (λ p. p.api_base == api_base) peers) [
      | none ↦ P.f32.literal 1 2
      | some p ↦ p.reputation
    ]
  ]

  -- the credibility of a new unit
  abbrev pub credit : P.f32.Carrier → Map P.f32.Carrier → SemanticUnit P → Bool → Sync (Unit {0})
  credit peer_reputation author_reputations unit false s = (ok tt, s)
  credit peer_reputation author_reputations unit true s = (
    ok tt,
    (set_unit_credibility P unit.id
        (P.f32.mul peer_reputation
          (unwrap_or (lookup unit.author author_reputations) (P.f32.literal 1 2)))
        s).1,
  )

  -- The body of the loop over the page
  unfoldable pub take_unit : P.f32.Carrier → Map P.f32.Carrier → SemanticUnit P → Sync (Unit {0})
  take_unit peer_reputation author_reputations unit = do
    fresh ← try_put unit
    credit peer_reputation author_reputations unit fresh

  abbrev pub advance : String → Option String → Sync (Unit {0})
  advance api_base none s = (ok tt, s)
  advance api_base (some cursor) s = local (set_cursor P api_base cursor) s

  abbrev pub take_page : String → P.f32.Carrier → ListResponse P → Sync Bool
  take_page api_base peer_reputation page = do
    for_each (take_unit peer_reputation page.author_reputations) page.units
    advance api_base page.cursor
    pure page.has_more

  abbrev pub take_reply : String → Result (ListResponse P) SyncError → Sync Bool
  take_reply api_base (err e) s = (err e, s)
  take_reply api_base (ok page) s = take_page api_base (peer_reputation_for api_base s) page s

  unfoldable pub sync_peer_once : Remote → String → Sync Bool
  unfolding take_unit
  sync_peer_once remote api_base = do
    cursor ← local (get_cursor P api_base)
    take_reply api_base (remote cursor)

  -- `sync_peer`: the loop on fuel; `none` means that the fuel ran out. The remote node may answer
  -- each request anew.
  unfoldable pub sync_peer :
      ℕ → Remote → String → Inner P → Option (Result (Unit {0}) SyncError × Inner P)
  unfolding sync_peer_once
  sync_peer zero remote api_base s = none
  sync_peer (suc fuel) remote api_base s =
      let once = sync_peer_once remote api_base s in
      let again = sync_peer fuel remote api_base once.1 in
      elim once.0 [
        | err e ↦ some (err e, once.1)
        | ok more ↦ if more then again else some (ok tt, once.1)
      ]

-- ===== src/Node/Federation/Replication.antt =====
-- Pulling from a node that answers by the `sync` handler: `FederationSync::sync_peer` of
-- packages/node/src/federation.rs against `sync` of packages/node/src/handlers/units.rs.
use symantic_weft.Prelude.{
  ℕ, zero, suc, ◌<◌, Bool, true, false, Option, some, ◌++◌, String, ◌≡◌, refl, sym, ap, ◌∙◌, subst,
  inl, inr, Result, ok, err, arith, is_some, if◌then◌else◌, Bool-cases, Among, Among-append, length,
  length-append,
}
use symantic_weft.Prelude.Map.{lookup}
use symantic_weft.Platform.{Platform}
use symantic_weft.Core.Types.{SemanticUnit}
use symantic_weft.NodeApi.{last_id}
use symantic_weft.Node.Memory.{Inner}
use symantic_weft.Node.Memory.Units.{list_units}
use symantic_weft.Node.Memory.Units.Pages.{IsStored, remaining, list_units_pages}
use symantic_weft.Node.Memory.Settings.{get_cursor}
use symantic_weft.Node.State.{AppState}
use symantic_weft.Node.Federation.{
  SyncError, Remote, peer_reputation_for, sync_peer_once, sync_peer,
}
use symantic_weft.Node.Federation.Local.{
  cursor_after, Keeps, Stored, Keeps-Stored, take_page-Stored,
}
use symantic_weft.Node.Federation.Serve.{serve, public_filter, page_of, reply, serve-page}

module _ {P : Platform} where
  sync_peer_once-page :
      (trim : String → String) (node : AppState P) (api_base : String) (s : Inner P)
      → let after = lookup api_base s.cursors in
        let t = (sync_peer_once P (serve trim node) api_base s).1 in
        ((sync_peer_once P (serve trim node) api_base s).0 ≡ ok (page_of node.storage after).1)
        × Keeps s t
        × ((u : SemanticUnit P) → Among u (page_of node.storage after).0 → Stored t u)
        × (lookup api_base t.cursors
            ≡ cursor_after (last_id P (page_of node.storage after).0) after)
  unfolding sync_peer_once get_cursor
  sync_peer_once-page trim node api_base s =
      let after = lookup api_base s.cursors in
      let (m, e) = serve-page trim node after in
      rw e (
        take_page-Stored api_base (peer_reputation_for P api_base s)
          (reply (page_of node.storage after).0 (page_of node.storage after).1 m) s)

  -- A page that is not the last one: it is full, its cursor is its last id, and less is left.
  more_pages :
      (node : Inner P) (after : Option String)
      → IsStored node.units
      → (page_of node after).1 ≡ true
      → (u : SemanticUnit P) × (last_id P (page_of node after).0 ≡ some u.id)
        × (length (page_of node after).0 ≡ 500)
        × ((page_of node after).0 ++ remaining (public_filter (some u.id)) node
            ≡ remaining (public_filter after) node)
  unfolding list_units
  more_pages node after h e =
      let facts =
        list_units_pages P (public_filter after) node node (page_of node after).0
          (page_of node after).1 h (omega arith) refl in
      let (u, last, count, split) = facts.3 e in (u, rw (last, last_id) refl, count, split)

  last_page :
      (node : Inner P) (after : Option String)
      → IsStored node.units
      → (page_of node after).1 ≡ false
      → (page_of node after).0 ≡ remaining (public_filter after) node
  unfolding list_units
  last_page node after h e =
      let facts =
        list_units_pages P (public_filter after) node node (page_of node after).0
          (page_of node after).1 h (omega arith) refl in
      facts.2 e

  sync_peer-step :
      (fuel : ℕ) (remote : Remote P) (api_base : String) (s : Inner P) (more : Bool)
      → (sync_peer_once P remote api_base s).0 ≡ ok more
      → sync_peer P (suc fuel) remote api_base s ≡ (
          if more
          then sync_peer P fuel remote api_base (sync_peer_once P remote api_base s).1
          else some (ok tt, (sync_peer_once P remote api_base s).1))
  unfolding sync_peer sync_peer_once
  sync_peer-step fuel remote api_base s more h =
      let after = (sync_peer_once P remote api_base s).1 in
      ap
        (λ (r : Result Bool SyncError).
          elim r as (λ _. Option (Result (Unit {0}) SyncError × Inner P)) [
            | err e ↦ some (err e, after)
            | ok m ↦ if m then sync_peer P fuel remote api_base after else some (ok tt, after)
          ])
        h

  sync_peer-Stored :
      (trim : String → String) (node : AppState P) (api_base : String) (fuel : ℕ) (s : Inner P)
      → IsStored node.storage.units
      → length (remaining (public_filter (lookup api_base s.cursors)) node.storage) < fuel
      → (t : Inner P) × (sync_peer P fuel (serve trim node) api_base s ≡ some (ok tt, t))
        × Keeps s t
        × ((u : SemanticUnit P)
            → Among u (remaining (public_filter (lookup api_base s.cursors)) node.storage)
            → Stored t u)
  sync_peer-Stored trim node api_base zero s h enough = absurd (omega arith)
  sync_peer-Stored trim node api_base (suc fuel) s h enough =
      let after = lookup api_base s.cursors in
      let t = (sync_peer_once P (serve trim node) api_base s).1 in
      let (answer, kept, stored, cursor) = sync_peer_once-page trim node api_base s in
      elim (Bool-cases (page_of node.storage after).1) [
        | inr e ↦
            let all : (page_of node.storage after).0
                ≡ remaining (public_filter after) node.storage =
              last_page node.storage after h e in
            (
              t,
              sync_peer-step fuel (serve trim node) api_base s false (answer ∙ ap ok e),
              kept,
              λ u m. stored u (subst (Among u) (sym all) m),
            )
        | inl e ↦
            let (u, last, count, split) = more_pages node.storage after h e in
            let next : lookup api_base t.cursors ≡ some u.id =
              cursor ∙ ap (λ c. cursor_after c after) last in
            let left : length (remaining (public_filter (some u.id)) node.storage) < fuel = omega (
              arith,
              length-append (page_of node.storage after).0
                  (remaining (public_filter (some u.id)) node.storage),
              ap length split,
            ) in
            let (r, done, kept', stored') = sync_peer-Stored trim node api_base fuel t h (
              subst (λ c. length (remaining (public_filter c) node.storage) < fuel) (sym next)
                left) in
            (
              r,
              sync_peer-step fuel (serve trim node) api_base s true (answer ∙ ap ok e) ∙ done,
              λ id v k. kept' id v (kept id v k),
              λ x m.
                  elim (Among-append x (page_of node.storage after).0
                    (remaining (public_filter (some u.id)) node.storage)
                    (subst (Among x) (sym split) m)) [
                      | inl k ↦ Keeps-Stored t r x kept' (stored x k)
                      | inr k ↦ stored' x (
                          subst (λ c. Among x (remaining (public_filter c) node.storage)) (sym next)
                            k)
                    ],
            )
      ]

-- Pulling into the in-memory storage from a node that answers by the `sync` handler, has an in-memory
-- storage too and keeps its units in order under their ids, with more fuel than that node has public
-- units behind the kept cursor: the pull ends without an error, a unit is then stored here under the
-- id of each of them, whether or not it is valid, since nothing that is pulled is validated, and
-- whatever was stored here before still is.
pub sync_peer_replicates :
    (P : Platform) (trim : String → String) (node : AppState P) (api_base : String) (fuel : ℕ)
    (s : Inner P)
    → IsStored node.storage.units
    → length (remaining (public_filter (lookup api_base s.cursors)) node.storage) < fuel
    → (t : Inner P) × (sync_peer P fuel (serve trim node) api_base s ≡ some (ok tt, t))
      × ((id : String) (v : SemanticUnit P)
          → lookup id s.units ≡ some v
          → lookup id t.units ≡ some v)
      × ((u : SemanticUnit P)
          → Among u (remaining (public_filter (lookup api_base s.cursors)) node.storage)
          → is_some (lookup u.id t.units) ≡ true)
sync_peer_replicates P trim node api_base fuel s h enough =
    sync_peer-Stored trim node api_base fuel s h enough

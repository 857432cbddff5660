-- ===== src/Node/Federation/Serve.antt =====
-- The answers of a node that serves `sync` of packages/node/src/handlers/units.rs.
use symantic_weft.Prelude.{
  Bool, Option, none, some, List, [], ◌∷◌, String, ◌≡◌, refl, inl, inr, Result, ok, err, is_some,
  Bool-cases, Option-cases,
}
use symantic_weft.Prelude.Map.{Map, lookup, insert}
use symantic_weft.Platform.{Platform}
use symantic_weft.Core.Types.{SemanticUnit, public}
use symantic_weft.NodeApi.{ListResponse, last_id, from_page}
use symantic_weft.Node.Storage.{UnitFilter}
use symantic_weft.Node.Memory.{Inner}
use symantic_weft.Node.Memory.Units.{page, list_units}
use symantic_weft.Node.Memory.Units.Pages.{remaining}
use symantic_weft.Node.Memory.Agents.{get_agent}
use symantic_weft.Node.Error.{AppError, into_response}
use symantic_weft.Node.State.{AppState}
use symantic_weft.Node.Handlers.Units.{
  UnitQueryParams, sync, author_reputations, add_reputation, build_filter,
}
use symantic_weft.Node.Federation.{SyncError, bad_status}

-- What a node that answers by `sync` sends back, for a request with `limit=500`.
abbrev pub served : {A : Type 0} → Result A AppError → Result A SyncError
served (ok a) = ok a
served (err e) = err (bad_status (into_response e).0)

abbrev pub sync_request : Option String → UnitQueryParams
sync_request after = record {
  unit_type = [];
  author = none;
  since = none;
  after = after;
  limit = some 500;
}

-- The public units behind a cursor.
abbrev pub public_filter : Option String → UnitFilter
public_filter after = record {
  unit_types = [];
  author = none;
  since = none;
  after = after;
  limit = 500;
  visibilities = public ∷ [];
  network_for_authors = [];
}

module _ {P : Platform} where
  abbrev pub serve :
      (String → String) → AppState P → Option String → Result (ListResponse P) SyncError
  serve trim node after = served (sync P trim none (sync_request after) node).0

  add_reputation-kept :
      (known : Map P.f32.Carrier) (u : SemanticUnit P) (s : AppState P)
      → (m : Map P.f32.Carrier) × (add_reputation P known u s ≡ (ok m, s))
  unfolding add_reputation get_agent
  add_reputation-kept known u s = elim (Bool-cases (is_some (lookup u.author known))) [
    | inl e ↦ (known, rw e refl)
    | inr e ↦ elim (Option-cases (lookup u.author s.storage.agents)) [
      | inl f ↦ (known, rw (e, f) refl)
      | inr (p, f) ↦ (insert u.author p.reputation known, rw (e, f) refl)
    ]
  ]

  author_reputations-kept :
      (l : List (SemanticUnit P)) (known : Map P.f32.Carrier) (s : AppState P)
      → (m : Map P.f32.Carrier) × (author_reputations P known l s ≡ (ok m, s))
  unfolding author_reputations
  author_reputations-kept [] known s = (known, refl)
  author_reputations-kept (u ∷ l) known s =
      let (more, e) = add_reputation-kept known u s in
      let (m, f) = author_reputations-kept l more s in (m, rw e f)

  abbrev pub page_of : Inner P → Option String → List (SemanticUnit P) × Bool
  page_of node after = page 500 (remaining (public_filter after) node)

  abbrev pub reply : List (SemanticUnit P) → Bool → Map P.f32.Carrier → ListResponse P
  reply units has_more reputations = record {
    units = units;
    cursor = last_id P units;
    has_more = has_more;
    author_reputations = reputations;
  }

  -- The answer to a request is the page of the public units behind its cursor.
  pub serve-page :
      (trim : String → String) (node : AppState P) (after : Option String)
      → (m : Map P.f32.Carrier) × (serve trim node after
          ≡ ok (reply (page_of node.storage after).0 (page_of node.storage after).1 m))
  unfolding sync list_units build_filter from_page
  serve-page trim node none =
      let (m, e) = author_reputations-kept (page_of node.storage none).0 [] node in (m, rw e refl)
  serve-page trim node (some c) =
      let (m, e) = author_reputations-kept (page_of node.storage (some c)).0 [] node in
      (m, rw e refl)

-- ===== src/Node/Handlers/Units.antt =====
-- packages/node/src/handlers/units.rs: submission, retrieval, listing and the sync page.
pub mod Fanout
pub mod Visible
pub mod Listed
pub mod Submit
pub mod Recipients
pub mod Aborts
pub mod Subgraph
use symantic_weft.Prelude.{
  ℕ, Bool, true, false, not, Option, none, some, List, [], ◌∷◌, String, ◌==◌, any, filter,
  if◌then◌else◌, Result, ok, err, is_some, unwrap_or, concat,
}
use symantic_weft.Prelude.Action.{Action, pure, fail, modify, from_result, ◌>>=◌, ◌>>◌, get_state}
use symantic_weft.Prelude.Map.{Map, lookup, insert}
use symantic_weft.Platform.{Platform}
use symantic_weft.Core.Types.{
  SemanticUnit, UnitType, Visibility, public, network, limited, visibility_eq, effective_visibility,
}
use symantic_weft.Core.Types.Names.{unit_type_from_str}
use symantic_weft.Core.Types.Equality.{unit_eq}
use symantic_weft.Core.Validation.{ValidationError, validate_unit}
use symantic_weft.Core.Validation.Messages.{display_error}
use symantic_weft.NodeApi.{AgentProfile, ListResponse, clamp_or, from_page}
use symantic_weft.Node.Storage.{StorageError, UnitFilter}
use symantic_weft.Node.Memory.Units.{
  put_unit, get_unit, list_units, set_unit_credibility, holds_text, is_empty,
}
use symantic_weft.Node.Memory.Agents.{get_agent}
use symantic_weft.Node.Memory.Follows.{is_following}
use symantic_weft.Node.Storage.Interface.{Storage}
use symantic_weft.Node.Error.{AppError, from_storage}
use symantic_weft.Node.State.{
  AppState, Task, fan_out, to_app, Handler, stored, attempt, present, send, spawn,
}

pub record UnitQueryParams : Type 0 where
  pub unit_type : List String
  pub author : Option String
  pub since : Option String
  pub after : Option String
  pub limit : Option ℕ

abbrev pub is_public : Visibility → Bool
is_public v = visibility_eq v public

-- `tokens.filter(|s| !s.is_empty()).filter_map(|s| s.trim().parse().ok())`, given `trim`
abbrev pub parse_types : (String → String) → List String → List UnitType
parse_types trim [] = []
parse_types trim (s ∷ rest) =
    if s == "" then parse_types trim rest else elim (unit_type_from_str (trim s)) [
      | ok t ↦ t ∷ parse_types trim rest
      | err e ↦ parse_types trim rest
    ]

unfoldable pub build_filter : (String → String) → UnitQueryParams → List Visibility → UnitFilter
build_filter trim params visibilities = record {
  unit_types = parse_types trim params.unit_type;
  author = params.author;
  since = params.since;
  after = params.after;
  limit = clamp_or 1 500 50 params.limit;
  visibilities = visibilities;
  network_for_authors = [];
}

abbrev pub unit_not_found : String → AppError
unit_not_found id = AppError.not_found (concat "unit " (concat id " not found"))

-- What a caller who follows these authors may see
abbrev pub visibilities_for : List String → List Visibility × List String
visibilities_for [] = (public ∷ [], [])
visibilities_for (a ∷ rest) = (public ∷ network ∷ [], a ∷ rest)

module _ (P : Platform) where
  abbrev pub or_unprocessable : Result (Unit {0}) (ValidationError P) → Result (Unit {0}) AppError
  or_unprocessable (ok _) = ok tt
  or_unprocessable (err e) = err (AppError.unprocessable_entity (display_error P e))

  abbrev pub or_bad_request : Result (Unit {0}) String → Result (Unit {0}) AppError
  or_bad_request (ok _) = ok tt
  or_bad_request (err e) = err (AppError.bad_request e)

  -- Non-public units require authentication as the unit's author.
  unfoldable pub check_author : Option String → SemanticUnit P → Result (Unit {0}) AppError
  check_author auth unit = if is_public (effective_visibility unit) then ok tt else elim auth [
    | none ↦ err (AppError.unauthorized "authentication required for non-public units")
    | some caller_did ↦
        if caller_did == unit.author
        then ok tt
        else err (AppError.forbidden "you may only submit units authored by your own DID")
  ]

  -- `….await.ok().flatten().map(|a| a.reputation).unwrap_or(0.5)`
  abbrev pub reputation_or_half : Result (Option (AgentProfile P)) StorageError → P.f32.Carrier
  reputation_or_half (ok (some a)) = a.reputation
  reputation_or_half (ok none) = P.f32.literal 1 2
  reputation_or_half (err e) = P.f32.literal 1 2

  abbrev pub announce : SemanticUnit P → AppState P → AppState P
  announce unit s = if is_public (effective_visibility unit) then send unit s else s

  -- `submit` behind a successful `put_unit`
  unfoldable pub accept : SemanticUnit P → Handler P (ℕ × SemanticUnit P)
  accept unit = do
    profile ← attempt (get_agent P unit.author)
    _ ← attempt (set_unit_credibility P unit.id (reputation_or_half profile))
    modify (announce unit)
    modify (spawn (fan_out unit))
    pure (201, unit)

  -- The stored unit and the same unit again, or another one
  abbrev pub resubmitted : SemanticUnit P → SemanticUnit P → Handler P (ℕ × SemanticUnit P)
  resubmitted unit existing =
      if unit_eq P existing unit
      then pure (200, existing)
      else fail (
          AppError.conflict
            (concat "unit " (concat unit.id " already exists with different content")))

  -- `submit` behind a conflict
  unfoldable pub resubmit : SemanticUnit P → Handler P (ℕ × SemanticUnit P)
  resubmit unit = do
    found ← stored (get_unit P unit.id)
    existing ← present found (AppError.internal "conflict on put_unit but unit not found")
    resubmitted unit existing

  abbrev pub conclude :
      SemanticUnit P → Result (Unit {0}) StorageError → Handler P (ℕ × SemanticUnit P)
  conclude unit (ok _) = accept unit
  conclude unit (err (StorageError.conflict _)) = resubmit unit
  conclude unit (err StorageError.not_found) = fail (from_storage StorageError.not_found)
  conclude unit (err (StorageError.internal m)) = fail (from_storage (StorageError.internal m))

  -- `submit`, given `verify_proof` with its errors as texts; the answer is a status and the unit
  unfoldable pub submit :
      (SemanticUnit P → Result (Unit {0}) String)
      → Option String
      → SemanticUnit P
      → Handler P (ℕ × SemanticUnit P)
  unfolding accept resubmit
  submit verify_proof auth unit = do
    from_result (or_unprocessable (validate_unit P unit))
    from_result (if is_some unit.proof then or_bad_request (verify_proof unit) else ok tt)
    from_result (check_author auth unit)
    outcome ← attempt (put_unit P unit)
    conclude unit outcome

  -- `.unwrap_or(false)`
  abbrev pub ok_or_false : Result Bool StorageError → Bool
  ok_or_false (ok b) = b
  ok_or_false (err e) = false

  -- The `match` on the visibility in `get_by_id`
  unfoldable pub check_visible :
      Option String → String → SemanticUnit P → Visibility → Handler P (Unit {0})
  check_visible auth id unit public = pure tt
  check_visible auth id unit network = do
    caller_did ← present auth (unit_not_found id)
    is_follower ← attempt (is_following P caller_did unit.author)
    (if ok_or_false is_follower then pure tt else fail (unit_not_found id))
  check_visible auth id unit limited = do
    caller_did ← present auth (unit_not_found id)
    (if holds_text (unwrap_or unit.audience []) caller_did
        then pure tt
        else fail (unit_not_found id))

  unfoldable pub get_by_id : Option String → String → Handler P (SemanticUnit P)
  unfolding check_visible
  get_by_id auth id = do
    from_result (
        if is_some (P.uuid_version id)
        then ok tt
        else err (AppError.bad_request (concat (P.debug id) " is not a valid UUID")))
    found ← stored (get_unit P id)
    unit ← present found (unit_not_found id)
    check_visible auth id unit (effective_visibility unit)
    pure unit

  -- `list`, on any storage
  module _ (S : Storage P) where
    -- `….await.map_err(AppError::from)?`
    abbrev pub called : {A : Type 0} → Action S.State StorageError A → Action S.State AppError A
    called m s = (to_app (m s).0, (m s).1)

    abbrev pub visible_to : Option String → Action S.State AppError (List Visibility × List String)
    visible_to none = pure (public ∷ [], [])
    visible_to (some caller_did) = do
      following ← called (S.list_following caller_did)
      pure (visibilities_for following)

    unfoldable pub list :
        (String → String)
        → UnitQueryParams
        → Option String
        → Action S.State AppError (ListResponse P)
    list trim params auth = do
      allowed ← visible_to auth
      page ← called (
          S.list_units
            (record (build_filter trim params allowed.0) { network_for_authors = allowed.1 }))
      pure (from_page P page.0 page.1)

  -- The reputations of the authors of a page, each looked up once
  unfoldable pub add_reputation : Map P.f32.Carrier → SemanticUnit P → Handler P (Map P.f32.Carrier)
  add_reputation known unit =
      if is_some (lookup unit.author known)
      then pure known
      else do profile ← attempt (get_agent P unit.author); pure (with_profile profile)
    where
      with_profile : Result (Option (AgentProfile P)) StorageError → Map P.f32.Carrier
      with_profile (ok (some profile)) = insert unit.author profile.reputation known
      with_profile (ok none) = known
      with_profile (err e) = known

  unfoldable pub author_reputations :
      Map P.f32.Carrier → List (SemanticUnit P) → Handler P (Map P.f32.Carrier)
  unfolding add_reputation
  author_reputations known [] = pure known
  author_reputations known (u ∷ us) = do more ← add_reputation known u; author_reputations more us

  -- `if params.after.is_none()`, the `Last-Event-ID` header takes its place
  abbrev pub sync_after : Option String → Option String → Option String
  sync_after none last_event_id = last_event_id
  sync_after (some after) last_event_id = some after

  -- `sync` with the JSON answer, given the header
  unfoldable pub sync :
      (String → String) → Option String → UnitQueryParams → Handler P (ListResponse P)
  unfolding author_reputations
  sync trim last_event_id params = do
    page ← stored (
        list_units P (
          build_filter trim (record params { after = sync_after params.after last_event_id })
            (public ∷ [])))
    reputations ← author_reputations [] page.0
    pure (record (from_page P page.0 page.1) { author_reputations = reputations })

-- ===== src/Node/Handlers/Units/Listed.antt =====
-- What `list` shows to whom, in packages/node/src/handlers/units.rs, on any storage.
use symantic_weft.Prelude.{
  ◌≤◌, ◌≢◌, All, filter, length, true, Option, none, some, List, [], ◌∷◌, String, ◌≡◌, ◌⊎◌, inl,
  inr, refl, sym, Among, ok, err, Result, ◌==◌, subst,
}
use symantic_weft.Prelude.Action.{pure, ◌>>=◌}
use symantic_weft.Prelude.Map.{values}
use symantic_weft.Platform.{Platform}
use symantic_weft.Core.Types.{SemanticUnit, Visibility, public, limited, effective_visibility}
use symantic_weft.Node.Storage.{UnitFilter, StorageError}
use symantic_weft.Node.Storage.Interface.{Storage}
use symantic_weft.Node.Error.{AppError, from_storage}
use symantic_weft.Node.Memory.{Inner}
use symantic_weft.Node.Memory.Instance.{memory}
use symantic_weft.Node.Memory.Units.{page, visibility_passes, list_units}
use symantic_weft.Node.Memory.Follows.{seconds, list_following}
use symantic_weft.Node.Memory.Follows.Laws.{Among-seconds_iff}
use symantic_weft.NodeApi.{ListResponse, from_page}
use symantic_weft.Node.Handlers.Units.{
  visibilities_for, called, list, build_filter, UnitQueryParams,
}
use symantic_weft.Node.Handlers.Units.Visible.{
  IsVisible, page_within, clamp_or-le, list_page-IsVisible, public_only-IsVisible,
  following-IsVisible,
}

-- What `list` relies on in a storage: its answers are those of the in-memory storage on some contents
-- that reading leaves alone. Each call may fail instead.
abbrev pub Answers : {A S : Type 0} → Result A StorageError × S → Result A StorageError → Type 0
Answers r expected = (r.0 ≡ expected) ⊎ ((e : StorageError) × (r.0 ≡ err e))

module _ {P : Platform} where
  pub record IsUnitStore (S : Storage P) : Type 0 where
    pub view : S.State → Inner P
    pub follows :
        (did : String) (s : S.State)
        → Answers (S.list_following did s) (list_following P did (view s)).0
          × (view (S.list_following did s).1 ≡ view s)
    pub units :
        (f : UnitFilter) (s : S.State)
        → Answers (S.list_units f s) (list_units P f (view s)).0
          × (view (S.list_units f s).1 ≡ view s)

  pub memory-follows :
      (did : String) (s : Inner P)
      → Answers (list_following P did s) (list_following P did s).0
        × ((list_following P did s).1 ≡ s)
  unfolding list_following
  memory-follows did s = (inl refl, refl)

  pub memory-units :
      (f : UnitFilter) (s : Inner P)
      → Answers (list_units P f s) (list_units P f s).0 × ((list_units P f s).1 ≡ s)
  unfolding list_units
  memory-units f s = (inl refl, refl)

  abbrev pub memory-IsUnitStore : IsUnitStore (memory P)
  memory-IsUnitStore = record { view = λ s. s; follows = memory-follows; units = memory-units }

  -- A page for this caller: short, of stored units that are not limited and that the caller may see
  pub record IsPage (s : Inner P) (auth : Option String) (r : ListResponse P) : Type 0 where
    pub short : length r.units ≤ 500
    pub visible :
        All
          (λ (u : SemanticUnit P).
            Among u (values s.units)
            × (effective_visibility u ≢ limited)
            × IsVisible s auth u (effective_visibility u))
          r.units

module _ {P : Platform} (S : Storage P) (L : IsUnitStore S) (trim : String → String)
    (params : UnitQueryParams) (auth : Option String) where
  -- One of the two methods fails so.
  abbrev pub IsFailure : StorageError → Type 0
  IsFailure e =
      ((did : String) × (s : S.State) × ((S.list_following did s).0 ≡ err e))
      ⊎ ((f : UnitFilter) × (s : S.State) × ((S.list_units f s).0 ≡ err e))

  -- What the request comes to on these contents: a page, or the answer to a failure of the storage
  abbrev pub IsListed : Inner P → Result (ListResponse P) AppError × S.State → Type 0
  IsListed v out =
      (((r : ListResponse P) × (out.0 ≡ ok r) × IsPage v auth r)
        ⊎ ((e : StorageError) × IsFailure e × (out.0 ≡ err (from_storage e))))
      × (L.view out.1 ≡ v)

  -- the second call, with what the first one allows
  listed_with : List Visibility × List String → S.State → Result (ListResponse P) AppError × S.State
  listed_with allowed = do
    page ← called P S (
        S.list_units
          (record (build_filter trim params allowed.0) { network_for_authors = allowed.1 }))
    pure (from_page P page.0 page.1)

  listed_with-IsListed :
      (allowed : List Visibility × List String) (s : S.State)
      → ((u : SemanticUnit P)
          → visibility_passes P
              (record (build_filter trim params allowed.0) { network_for_authors = allowed.1 })
              u
            ≡ true
          → (effective_visibility u ≢ limited)
            × IsVisible (L.view s) auth u (effective_visibility u))
      → IsListed (L.view s) (listed_with allowed s)
  unfolding listed_with list_units from_page build_filter
  listed_with-IsListed allowed s sees =
      let f = record (build_filter trim params allowed.0) { network_for_authors = allowed.1 } in
      let (answer, kept) = L.units f s in
      elim answer [
        | inl e ↦
            rw (e, listed_with)
              (
                inl (
                  _,
                  refl,
                  record {
                    short = page_within f.limit _ (clamp_or-le params.limit);
                    visible = list_page-IsVisible (L.view s) auth f sees;
                  },
                ),
                kept,
              )
        | inr (x, e) ↦ rw (e, listed_with) (inr (x, inr (f, s, e), refl), kept)
      ]

-- On any storage whose successful answers are right: `list` answers with a page, whatever the
-- parameters, or with the error response to a failure of one of the two methods that it calls, and
-- leaves the contents as they were. A page holds at most 500 units; each is stored, is not limited,
-- and is public, or a network unit of an author whom the caller, who is then authenticated, follows.
pub list-IsVisible :
    (P : Platform) (S : Storage P) (L : IsUnitStore S) (trim : String → String)
    (params : UnitQueryParams) (auth : Option String) (s : S.State)
    → IsListed S L trim params auth (L.view s) (list P S trim params auth s)
unfolding list listed_with list_following build_filter
list-IsVisible P S L trim params none s =
    let f = record (build_filter trim params (public ∷ [])) { network_for_authors = [] } in
    listed_with-IsListed S L trim params none (public ∷ [], []) s
      (λ u. public_only-IsVisible (L.view s) none u f refl)
list-IsVisible P S L trim params (some c) s =
    let (answer, kept) = L.follows c s in
    let t = (S.list_following c s).1 in
    elim answer [
      | inr (x, e) ↦ rw (e, list) (inr (x, inl (c, s, e), refl), kept)
      | inl e ↦
          let following = seconds (filter (λ p. p.0 == c) (L.view s).follows) in
          let allowed = visibilities_for following in
          let f = record (build_filter trim params allowed.0) { network_for_authors = allowed.1 } in
          rw (e, list)
            (subst
              (λ v.
                IsListed S L trim params (some c) v
                  (listed_with S L trim params (some c) (visibilities_for following) t))
              kept
              (listed_with-IsListed S L trim params (some c) (visibilities_for following) t (λ u.
                following-IsVisible (L.view t) c following u f
                  (λ a m.
                    subst (λ v. Among (c, a) v.follows) (sym kept)
                      ((Among-seconds_iff c a (L.view s).follows).0 m))
                  refl refl)))
    ]

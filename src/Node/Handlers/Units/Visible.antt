-- ===== src/Node/Handlers/Units/Visible.antt =====
-- Who sees a unit through `get_by_id` of packages/node/src/handlers/units.rs.
use symantic_weft.Prelude.{
  ℕ, ◌≤◌, ◌≢◌, Among-take, Among-filter, All, All-of_Among, filter, length, length-take, true,
  Option, none, some, List, [], ◌∷◌, String, ◌≡◌, ◌↔◌, ◌⊎◌, inl, inr, refl, sym, ap, ◌∙◌, Among, ok,
  err, is_some, unwrap_or, any, ◌==◌, arith, Bool-cases, Option-cases, subst,
}
use symantic_weft.Prelude.Map.{Map, lookup, values, range_after, Among-values}
use symantic_weft.Prelude.Map.Distinct.{Among-of_values}
use symantic_weft.Platform.{Platform}
use symantic_weft.Core.Types.{
  SemanticUnit, Visibility, public, network, limited, effective_visibility,
}
use symantic_weft.Node.Storage.{UnitFilter}
use symantic_weft.Node.Memory.{Inner}
use symantic_weft.Node.Memory.Units.{get_unit, page, from_cursor, passes, visibility_passes}
use symantic_weft.Node.Memory.Units.Pages.{page_cases}
use symantic_weft.Node.Memory.Follows.{is_following, follows_pair}
use symantic_weft.Node.Memory.Follows.Laws.{Among-text_iff, follows_pair_iff}
use symantic_weft.NodeApi.{clamp_or}
use symantic_weft.Node.State.{AppState}
use symantic_weft.Node.Handlers.Units.{check_visible, get_by_id, unit_not_found, visibilities_for}
use mathlib.Core.Option.{some-injective}

module _ {P : Platform} where
  -- A caller may see a unit of this visibility: anyone a public one, the followers of its author a
  -- network one, its audience a limited one.
  abbrev pub IsVisible : Inner P → Option String → SemanticUnit P → Visibility → Type 0
  IsVisible s auth u public = Unit
  IsVisible s auth u network = (c : String) × (auth ≡ some c) × Among (c, u.author) s.follows
  IsVisible s auth u limited = (c : String) × (auth ≡ some c) × Among c (unwrap_or u.audience [])

  check_visible_cases :
      (auth : Option String) (id : String) (u : SemanticUnit P) (v : Visibility) (s : AppState P)
      → (IsVisible s.storage auth u v × (check_visible P auth id u v s ≡ (ok tt, s)))
        ⊎ ((¬ IsVisible s.storage auth u v)
            × (check_visible P auth id u v s ≡ (err (unit_not_found id), s)))
  unfolding check_visible is_following
  check_visible_cases auth id u public s = inl (tt, refl)
  check_visible_cases none id u network s = inr (λ h. cc h.1, refl)
  check_visible_cases (some c) id u network s =
      elim (Bool-cases (follows_pair c u.author s.storage.follows)) [
        | inl e ↦ inl ((c, refl, (follows_pair_iff c u.author s.storage.follows).0 e), rw e refl)
        | inr e ↦ inr (
          λ h. cc (
              sym e
              ∙ (follows_pair_iff c u.author s.storage.follows).1 (
                  subst (λ x. Among (x, u.author) s.storage.follows)
                    (sym (some-injective c h.0 h.1)) h.2)),
          rw e refl,
        )
      ]
  check_visible_cases none id u limited s = inr (λ h. cc h.1, refl)
  check_visible_cases (some c) id u limited s =
      elim (Bool-cases (any (λ t. t == c) (unwrap_or u.audience []))) [
        | inl e ↦ inl ((c, refl, (Among-text_iff c (unwrap_or u.audience [])).0 e), rw e refl)
        | inr e ↦ inr (
          λ h. cc (
              sym e
              ∙ (Among-text_iff c (unwrap_or u.audience [])).1 (
                  subst (λ x. Among x (unwrap_or u.audience [])) (sym (some-injective c h.0 h.1))
                    h.2)),
          rw e refl,
        )
      ]

Among-page : {A : Type 0} (x : A) (limit : ℕ) (l : List A) → Among x (page limit l).0 → Among x l
Among-page x limit l h = elim (page_cases limit l) [
  | inl (_, e) ↦ Among-take x limit l (subst (λ r. Among x r.0) e h)
  | inr (_, e) ↦ subst (λ r. Among x r.0) e h
]

pub page_within :
    {A : Type 0} (limit : ℕ) (l : List A) → limit ≤ 500 → length (page limit l).0 ≤ 500
page_within limit l h = elim (page_cases limit l) [
  | inl (_, e) ↦ subst (λ r. length r.0 ≤ 500) (sym e) (omega (arith, length-take limit l))
  | inr (short, e) ↦ subst (λ r. length r.0 ≤ 500) (sym e) (omega (arith, short))
]

pub clamp_or-le : (o : Option ℕ) → clamp_or 1 500 50 o ≤ 500
clamp_or-le none = omega arith
clamp_or-le (some l) = grind arith

Visibility-cases : (v : Visibility) → (v ≡ public) ⊎ ((v ≡ network) ⊎ (v ≡ limited))
Visibility-cases public = inl refl
Visibility-cases network = inr (inl refl)
Visibility-cases limited = inr (inr refl)

module _ {P : Platform} where
  Among-from_cursor :
      (u : SemanticUnit P) (after : Option String) (m : Map (SemanticUnit P))
      → Among u (from_cursor after m)
      → Among u (values m)
  Among-from_cursor u none m h = h
  Among-from_cursor u (some a) m h =
      let (k, e) = Among-of_values u (range_after a m) h in
      Among-values k u m (Among-filter (k, u) _ m e).0

  passes-visible :
      (f : UnitFilter) (u : SemanticUnit P) → passes P f u ≡ true → visibility_passes P f u ≡ true
  unfolding passes
  passes-visible f u h = ground arith

  -- A filter for public units alone lets none but public units pass.
  pub public_only-IsVisible :
      (s : Inner P) (auth : Option String) (u : SemanticUnit P) (f : UnitFilter)
      → f.visibilities ≡ public ∷ []
      → visibility_passes P f u ≡ true
      → (effective_visibility u ≢ limited) × IsVisible s auth u (effective_visibility u)
  public_only-IsVisible s auth u f v h = elim (Visibility-cases (effective_visibility u)) [
    | inl e ↦ rw e (λ x. cc x, tt)
    | inr (inl e) ↦ cc (rw (v, e) at h)
    | inr (inr e) ↦ cc (rw (v, e) at h)
  ]

  -- What the filter of a caller lets pass is visible to that caller.
  pub following-IsVisible :
      (s : Inner P) (c : String) (following : List String) (u : SemanticUnit P) (f : UnitFilter)
      → ((a : String) → Among a following → Among (c, a) s.follows)
      → f.visibilities ≡ (visibilities_for following).0
      → f.network_for_authors ≡ (visibilities_for following).1
      → visibility_passes P f u ≡ true
      → (effective_visibility u ≢ limited) × IsVisible s (some c) u (effective_visibility u)
  following-IsVisible s c [] u f follows v n h = public_only-IsVisible s (some c) u f v h
  following-IsVisible s c (a ∷ rest) u f follows v n h =
      elim (Visibility-cases (effective_visibility u)) [
        | inl e ↦ rw e (λ x. cc x, tt)
        | inr (inl e) ↦ rw e (
          λ x. cc x,
          (c, refl, follows u.author ((Among-text_iff u.author (a ∷ rest)).0 (rw (v, n, e) at h))),
        )
        | inr (inr e) ↦ cc (rw (v, n, e) at h)
      ]

  pub list_page-IsVisible :
      (s : Inner P) (auth : Option String) (f : UnitFilter)
      → ((u : SemanticUnit P)
          → visibility_passes P f u ≡ true
          → (effective_visibility u ≢ limited) × IsVisible s auth u (effective_visibility u))
      → All
          (λ (u : SemanticUnit P).
            Among u (values s.units)
            × (effective_visibility u ≢ limited)
            × IsVisible s auth u (effective_visibility u))
          (page f.limit (filter (passes P f) (from_cursor f.after s.units))).0
  list_page-IsVisible s auth f sees = All-of_Among _ _ (λ u m.
      let chosen =
        Among-filter u (passes P f) (from_cursor f.after s.units) (Among-page u f.limit _ m) in
      let seen = sees u (passes-visible f u chosen.1) in
      (Among-from_cursor u f.after s.units chosen.0, seen.0, seen.1))

-- `get_by_id` answers with a unit exactly when the id parses as a UUID, the unit stands under it, and
-- the caller may see it: a public unit always, a network unit as a follower of its author, a
-- limited unit as one of its audience. The state stays as it was.
pub get_by_id_iff :
    (P : Platform) (auth : Option String) (id : String) (u : SemanticUnit P) (s t : AppState P)
    → (get_by_id P auth id s ≡ (ok u, t)) ↔ (
        (is_some (P.uuid_version id) ≡ true)
        × (lookup id s.storage.units ≡ some u)
        × IsVisible s.storage auth u (effective_visibility u)
        × (t ≡ s))
unfolding get_by_id get_unit
get_by_id_iff P auth id u s t = elim (Bool-cases (is_some (P.uuid_version id))) [
  | inr e ↦ (λ h. cc (rw e at h), λ h. cc (sym e ∙ h.0))
  | inl e ↦ elim (Option-cases (lookup id s.storage.units)) [
    | inl f ↦ (λ h. cc (rw (e, f) at h), λ h. cc (sym f ∙ h.1))
    | inr (v, f) ↦ elim (check_visible_cases auth id v (effective_visibility v) s) [
      | inl (visible, g) ↦ (
        λ h.
            let answered : (ok v, s) ≡ (ok u, t) = rw (e, f, g) at h in
            let same : v ≡ u = cc (ap (λ r. r.0) answered) in
            (
              e,
              f ∙ ap some same,
              subst (λ w. IsVisible s.storage auth w (effective_visibility w)) same visible,
              sym (ap (λ r. r.1) answered),
            ),
        λ h.
            let same : v ≡ u = some-injective v u (sym f ∙ h.1) in
            let kept = sym h.3 in rw (e, f, g) (λ i. (ok (same i), kept i)),
      )
      | inr (hidden, g) ↦ (
        λ h. cc (rw (e, f, g) at h),
        λ h.
            let same : u ≡ v = some-injective u v (sym h.1 ∙ f) in
            absurd
              (hidden (subst (λ w. IsVisible s.storage auth w (effective_visibility w)) same h.2)),
      )
    ]
  ]
]

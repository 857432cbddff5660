-- ===== src/Node/Federation/Local.antt =====
-- What a page leaves in the local store, in packages/node/src/federation.rs.
use symantic_weft.Prelude.{
  true, Option, none, some, List, [], ◌∷◌, String, ◌≡◌, refl, sym, ap, ◌∙◌, subst, inl, inr, ok,
  arith, is_some, unwrap_or, Bool-cases, Option-cases, eq_iff, eq_refl, Among,
}
use symantic_weft.Prelude.Action.{for_each}
use symantic_weft.Prelude.Map.{Map, lookup, insert_sorted, lookup-insert, lookup-insert_sorted}
use symantic_weft.Platform.{Platform}
use symantic_weft.Core.Types.{SemanticUnit}
use symantic_weft.NodeApi.{ListResponse}
use symantic_weft.Node.Memory.{Inner}
use symantic_weft.Node.Memory.Units.{page, put_unit, set_unit_credibility}
use symantic_weft.Node.Memory.Settings.{set_cursor}
use symantic_weft.Node.Federation.{take_unit, take_page}

-- The cursor that is kept for an address after a page.
abbrev pub cursor_after : Option String → Option String → Option String
cursor_after none old = old
cursor_after (some new) old = some new

module _ {P : Platform} where
  -- What was stored under an id before is stored there after.
  abbrev pub Keeps : Inner P → Inner P → Type 0
  Keeps s t =
      (id : String) (v : SemanticUnit P) → lookup id s.units ≡ some v → lookup id t.units ≡ some v

  abbrev pub Stored : Inner P → SemanticUnit P → Type 0
  Stored s u = is_some (lookup u.id s.units) ≡ true

  pub Keeps-Stored : (s t : Inner P) (u : SemanticUnit P) → Keeps s t → Stored s u → Stored t u
  Keeps-Stored s t u k h = elim (Option-cases (lookup u.id s.units)) [
    | inl e ↦ cc (sym (ap is_some e) ∙ h)
    | inr (v, e) ↦ ap is_some (k u.id v e)
  ]

  set_unit_credibility-kept :
      (id : String) (c : P.f32.Carrier) (s : Inner P)
      → ((set_unit_credibility P id c s).1.units ≡ s.units)
        × ((set_unit_credibility P id c s).1.cursors ≡ s.cursors)
  unfolding set_unit_credibility
  set_unit_credibility-kept id c s = elim (Bool-cases (is_some (lookup id s.units))) [
    | inl e ↦ rw e (refl, refl)
    | inr e ↦ rw e (refl, refl)
  ]

  -- A unit of a page is stored, and nothing that is stored is replaced.
  take_unit-Stored :
      (r : P.f32.Carrier) (a : Map P.f32.Carrier) (u : SemanticUnit P) (s : Inner P)
      → ((take_unit P r a u s).0 ≡ ok tt)
        × Keeps s (take_unit P r a u s).1
        × Stored (take_unit P r a u s).1 u
        × ((take_unit P r a u s).1.cursors ≡ s.cursors)
  unfolding take_unit put_unit
  take_unit-Stored r a u s = elim (Option-cases (lookup u.id s.units)) [
    | inr (v, e) ↦ rw (e, take_unit) (refl, λ id w h. h, ap is_some e, refl)
    | inl e ↦
        let put = record s { units = insert_sorted u.id u s.units } in
        let credibility = P.f32.mul r (unwrap_or (lookup u.author a) (P.f32.literal 1 2)) in
        let (units, cursors) = set_unit_credibility-kept u.id credibility put in
        let found : lookup u.id (set_unit_credibility P u.id credibility put).1.units ≡ some u =
          ap (lookup u.id) units
          ∙ lookup-insert_sorted u.id u.id u s.units
          ∙ rw (eq_refl u.id) refl in
        rw (e, take_unit)
          (
            refl,
            λ id w h.
                ap (lookup id) units
                ∙ lookup-insert_sorted u.id id u s.units
                ∙ grind (arith, eq_iff u.id id),
            ap is_some found,
            cursors,
          )
  ]

  take_units-Stored :
      (r : P.f32.Carrier) (a : Map P.f32.Carrier) (l : List (SemanticUnit P)) (s : Inner P)
      → ((for_each (take_unit P r a) l s).0 ≡ ok tt)
        × Keeps s (for_each (take_unit P r a) l s).1
        × ((u : SemanticUnit P) → Among u l → Stored (for_each (take_unit P r a) l s).1 u)
        × ((for_each (take_unit P r a) l s).1.cursors ≡ s.cursors)
  take_units-Stored r a [] s = (refl, λ id v h. h, λ u m. absurd m, refl)
  take_units-Stored r a (x ∷ l) s =
      let (done, kept, here, cursors) = take_unit-Stored r a x s in
      let after = (take_unit P r a x s).1 in
      let (done', kept', there, cursors') = take_units-Stored r a l after in
      rw done (
        done',
        λ id v h. kept' id v (kept id v h),
        λ u m. elim m [
          | inl e ↦
              subst (Stored (for_each (take_unit P r a) l after).1) (sym e)
                (Keeps-Stored after (for_each (take_unit P r a) l after).1 x kept' here)
          | inr n ↦ there u n
        ],
        cursors' ∙ cursors,
      )

  pub take_page-Stored :
      (api_base : String) (r : P.f32.Carrier) (page : ListResponse P) (s : Inner P)
      → ((take_page P api_base r page s).0 ≡ ok page.has_more)
        × Keeps s (take_page P api_base r page s).1
        × ((u : SemanticUnit P) → Among u page.units → Stored (take_page P api_base r page s).1 u)
        × (lookup api_base (take_page P api_base r page s).1.cursors
            ≡ cursor_after page.cursor (lookup api_base s.cursors))
  unfolding set_cursor
  take_page-Stored api_base r page s =
      let (done, kept, stored, cursors) =
        take_units-Stored r page.author_reputations page.units s in
      let after = (for_each (take_unit P r page.author_reputations) page.units s).1 in
      elim (Option-cases page.cursor) [
        | inl e ↦ rw (done, e) (refl, kept, stored, ap (lookup api_base) cursors)
        | inr (c, e) ↦
            rw (done, e)
              (
                refl,
                kept,
                stored,
                lookup-insert api_base api_base c after.cursors ∙ rw (eq_refl api_base) refl,
              )
      ]

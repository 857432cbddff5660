-- ===== src/Node/Handlers/Units/Submit.antt =====
-- What `submit` of packages/node/src/handlers/units.rs does to the stored units.
use symantic_weft.Prelude.{
  ℕ, true, false, Option, none, some, [], ◌∷◌, ◌++◌, String, ◌==◌, ◌≡◌, ◌⊎◌, inl, inr, refl, sym,
  concat, ap, ◌∙◌, ok, err, Result, is_some, if◌then◌else◌, arith, Bool-cases, Option-cases, subst,
  eq_refl, eq_iff,
}
use symantic_weft.Prelude.Map.{lookup, insert_sorted, lookup-insert_sorted}
use symantic_weft.Platform.{Platform}
use symantic_weft.Core.Types.{SemanticUnit, effective_visibility}
use symantic_weft.Core.Types.Equality.{unit_eq}
use symantic_weft.Core.Validation.{ValidationError, validate_unit}
use symantic_weft.Core.Validation.Conforms.{Conforms, validate_unit_iff}
use symantic_weft.Node.Memory.{Inner}
use symantic_weft.Node.Memory.Units.{put_unit, get_unit, set_unit_credibility}
use symantic_weft.Node.Memory.Agents.{get_agent}
use symantic_weft.Node.Error.{AppError}
use symantic_weft.Node.State.{AppState, fan_out}
use symantic_weft.Node.Handlers.Units.{
  accept, resubmit, submit, check_author, or_unprocessable, or_bad_request, announce, is_public,
  reputation_or_half, resubmitted,
}

Result-cases : {E : Type 0} (r : Result (Unit {0}) E) → (r ≡ ok tt) ⊎ ((e : E) × (r ≡ err e))
Result-cases (ok _) = inl refl
Result-cases (err e) = inr (e, refl)

module _ {P : Platform} where
  -- The state with the unit written.
  abbrev written : SemanticUnit P → AppState P → AppState P
  written u s = record s {
    storage = record s.storage { units = insert_sorted u.id u s.storage.units };
  }

  abbrev accepted : SemanticUnit P → AppState P → AppState P
  accepted u s = (accept P u (written u s)).1

  accept-answer : (u : SemanticUnit P) (s : AppState P) → (accept P u s).0 ≡ ok (201, u)
  unfolding accept set_unit_credibility get_agent
  accept-answer u s = refl

  announce-state :
      (u : SemanticUnit P) (s : AppState P)
      → ((announce P u s).storage ≡ s.storage)
        × ((announce P u s).spawned ≡ s.spawned)
        × ((announce P u s).broadcast
            ≡ (if is_public (effective_visibility u) then s.broadcast ++ (u ∷ []) else s.broadcast))
  announce-state u s = elim (Bool-cases (is_public (effective_visibility u))) [
    | inl e ↦ rw e (refl, refl, refl)
    | inr e ↦ rw e (refl, refl, refl)
  ]

  set_unit_credibility-units :
      (id : String) (c : P.f32.Carrier) (s : Inner P)
      → (set_unit_credibility P id c s).1.units ≡ s.units
  unfolding set_unit_credibility
  set_unit_credibility-units id c s = elim (Bool-cases (is_some (lookup id s.units))) [
    | inl e ↦ rw e refl
    | inr e ↦ rw e refl
  ]

  -- An accepted unit is announced to the subscribers where it is public, and handed to fan-out.
  accept-effects :
      (u : SemanticUnit P) (s : AppState P)
      → ((accept P u s).1.storage.units ≡ s.storage.units)
        × ((accept P u s).1.spawned ≡ s.spawned ++ (fan_out u ∷ []))
        × ((accept P u s).1.broadcast
            ≡ (if is_public (effective_visibility u) then s.broadcast ++ (u ∷ []) else s.broadcast))
  unfolding accept get_agent
  accept-effects u s =
      let reputation = reputation_or_half P (ok (lookup u.author s.storage.agents)) in
      let after = record s { storage = (set_unit_credibility P u.id reputation s.storage).1 } in
      let (stored, spawned, sent) = announce-state u after in
      (
        ap (λ i. i.units) stored ∙ set_unit_credibility-units u.id reputation s.storage,
        ap (λ l. l ++ (fan_out u ∷ [])) spawned,
        sent,
      )

  resubmit-taken :
      (u v : SemanticUnit P) (s : AppState P)
      → lookup u.id s.storage.units ≡ some v
      → resubmit P u s ≡ resubmitted P u v s
  unfolding resubmit get_unit
  resubmit-taken u v s taken = rw taken refl

  resubmitted_cases :
      (u v : SemanticUnit P) (s : AppState P)
      → ((unit_eq P v u ≡ true) × (resubmitted P u v s ≡ (ok (200, v), s)))
        ⊎ ((e : AppError) × (unit_eq P v u ≡ false) × (resubmitted P u v s ≡ (err e, s)))
  resubmitted_cases u v s = elim (Bool-cases (unit_eq P v u)) [
    | inl e ↦ inl (e, rw e refl)
    | inr e ↦ inr (
      AppError.conflict (concat "unit " (concat u.id " already exists with different content")),
      e,
      rw e refl,
    )
  ]

  resubmitted-state : (u v : SemanticUnit P) (s : AppState P) → (resubmitted P u v s).1 ≡ s
  resubmitted-state u v s = elim (resubmitted_cases u v s) [
    | inl (_, e) ↦ ap (λ r. r.1) e
    | inr (_, _, e) ↦ ap (λ r. r.1) e
  ]

  -- `submit` refuses and writes nothing, or takes a new unit, or finds one under the id.
  submit_cases :
      (verify : SemanticUnit P → Result (Unit {0}) String) (auth : Option String)
      (u : SemanticUnit P) (s : AppState P)
      → ((e : AppError) × (submit P verify auth u s ≡ (err e, s)))
        ⊎ ((validate_unit P u ≡ ok tt)
            × (check_author P auth u ≡ ok tt)
            × (((lookup u.id s.storage.units ≡ none)
                  × (submit P verify auth u s ≡ accept P u (written u s)))
                ⊎ ((v : SemanticUnit P) × (lookup u.id s.storage.units ≡ some v)
                    × (submit P verify auth u s ≡ resubmitted P u v s))))
  unfolding submit put_unit
  submit_cases verify auth u s = elim (Result-cases (or_unprocessable P (validate_unit P u))) [
    | inr (e, f) ↦ inl (e, rw f refl)
    | inl f ↦ elim (Result-cases (if is_some u.proof then or_bad_request P (verify u) else ok tt)) [
      | inr (e, g) ↦ inl (e, rw (f, g) refl)
      | inl g ↦ elim (Result-cases (check_author P auth u)) [
        | inr (e, k) ↦ inl (e, rw (f, g, k) refl)
        | inl k ↦ elim (Option-cases (lookup u.id s.storage.units)) [
          | inl free ↦ inr (validated (validate_unit P u) f, k, inl (free, rw (f, g, k, free) refl))
          | inr (v, taken) ↦ inr (
            validated (validate_unit P u) f,
            k,
            inr (v, taken, rw (f, g, k, taken) (resubmit-taken u v s taken)),
          )
        ]
      ]
    ]
  ]
    where
      validated :
          (r : Result (Unit {0}) (ValidationError P)) → or_unprocessable P r ≡ ok tt → r ≡ ok tt
      validated (ok _) h = refl
      validated (err e) h = cc

module _ {P : Platform} where
  check_author-ok :
      (auth : Option String) (u : SemanticUnit P)
      → check_author P auth u ≡ ok tt
      → (is_public (effective_visibility u) ≡ true) ⊎ (auth ≡ some u.author)
  unfolding check_author
  check_author-ok auth u h = elim (Bool-cases (is_public (effective_visibility u))) [
    | inl e ↦ inl e
    | inr e ↦ inr (same_caller auth (rw e at h))
  ]
    where
      same_caller :
          (o : Option String)
          → ◌≡◌ {A = Result (Unit {0}) AppError}
              (elim o [
                | none ↦ err (AppError.unauthorized "authentication required for non-public units")
                | some c ↦
                    if c == u.author
                    then ok tt
                    else err
                        (AppError.forbidden "you may only submit units authored by your own DID")
              ])
              (ok tt)
          → o ≡ some u.author
      same_caller none k = cc k
      same_caller (some c) k = ground (arith, eq_iff c u.author)

module _ (P : Platform) (verify : SemanticUnit P → Result (Unit {0}) String) where
  -- Whatever `submit` answers, a unit that is stored under an id before is stored there after.
  pub submit_keeps :
      (auth : Option String) (u : SemanticUnit P) (s : AppState P) (id : String)
      (v : SemanticUnit P)
      → lookup id s.storage.units ≡ some v
      → lookup id (submit P verify auth u s).1.storage.units ≡ some v
  submit_keeps auth u s id v h = elim (submit_cases verify auth u s) [
    | inl (e, f) ↦ subst (λ r. lookup id r.1.storage.units ≡ some v) (sym f) h
    | inr (_, _, inl (free, f)) ↦
        subst (λ r. lookup id r.1.storage.units ≡ some v) (sym f)
          (subst (λ m. lookup id m ≡ some v) (sym (accept-effects u (written u s)).0)
            (lookup-insert_sorted u.id id u s.storage.units ∙ grind (arith, eq_iff u.id id)))
    | inr (_, _, inr (w, taken, f)) ↦
        subst (λ r. lookup id r.1.storage.units ≡ some v) (sym f)
          (subst (λ t. lookup id t.storage.units ≡ some v) (sym (resubmitted-state u w s)) h)
  ]

  -- An answer of `submit` on the in-memory storage that is no error: the rules of `Conforms` hold of
  -- the unit, which are those that validation checks, and where it is not public the caller is its author. Either its id was free, the status is 201, the
  -- unit now stands under its id, subscribers are sent it exactly where it is public, and fan-out is
  -- given it; or the id was taken by a unit that is equal to it, the status is 200, the answer is
  -- the stored unit, and nothing is changed.
  pub submit_ok :
      (auth : Option String) (u v : SemanticUnit P) (code : ℕ) (s t : AppState P)
      → submit P verify auth u s ≡ (ok (code, v), t)
      → Conforms P u
        × ((is_public (effective_visibility u) ≡ true) ⊎ (auth ≡ some u.author))
        × (((lookup u.id s.storage.units ≡ none)
              × (code ≡ 201)
              × (v ≡ u)
              × (lookup u.id t.storage.units ≡ some u)
              × (t.broadcast ≡ (
                  if is_public (effective_visibility u)
                  then s.broadcast ++ (u ∷ [])
                  else s.broadcast))
              × (t.spawned ≡ s.spawned ++ (fan_out u ∷ [])))
            ⊎ ((lookup u.id s.storage.units ≡ some v)
                × (unit_eq P v u ≡ true)
                × (code ≡ 200)
                × (t ≡ s)))
  submit_ok auth u v code s t h = elim (submit_cases verify auth u s) [
    | inl (e, f) ↦ cc (ap (λ r. r.0) (sym f ∙ h))
    | inr (valid, author, inl (free, f)) ↦
        let done : accept P u (written u s) ≡ (ok (code, v), t) = sym f ∙ h in
        let answer : ◌≡◌ {A = Result (ℕ × SemanticUnit P) AppError} (ok (201, u)) (ok (code, v)) =
          sym (accept-answer u (written u s)) ∙ ap (λ r. r.0) done in
        let (units, spawned, sent) = accept-effects u (written u s) in
        let after : t ≡ (accept P u (written u s)).1 = sym (ap (λ r. r.1) done) in
        (
          (validate_unit_iff P u).0 valid,
          check_author-ok auth u author,
          inl (
            free,
            cc answer,
            cc answer,
            ap (λ x. lookup u.id x.storage.units) after
                ∙ ap (lookup u.id) units
                ∙ lookup-insert_sorted u.id u.id u s.storage.units
                ∙ grind (arith, eq_refl u.id),
            ap (λ x. x.broadcast) after ∙ sent,
            ap (λ x. x.spawned) after ∙ spawned,
          ),
        )
    | inr (valid, author, inr (w, taken, f)) ↦ elim (resubmitted_cases u w s) [
      | inr (e, _, g) ↦ cc (ap (λ r. r.0) (sym g ∙ sym f ∙ h))
      | inl (same, g) ↦
          let done : (ok (200, w), s) ≡ (ok (code, v), t) = sym g ∙ sym f ∙ h in
          let stored : w ≡ v = cc (ap (λ r. r.0) done) in
          (
            (validate_unit_iff P u).0 valid,
            check_author-ok auth u author,
            inr (
              taken ∙ ap some stored,
              subst (λ x. unit_eq P x u ≡ true) stored same,
              cc (ap (λ r. r.0) done),
              sym (ap (λ r. r.1) done),
            ),
          )
    ]
  ]

-- ===== src/Node/Handlers/Units/Aborts.antt =====
-- What stops `local_fanout` of packages/node/src/handlers/units.rs, on any storage.
use symantic_weft.Prelude.{
  not, List, [], ◌∷◌, ◌++◌, String, ◌≡◌, refl, sym, ap, ◌∙◌, inl, inr, Result, ok, err, Bool-cases,
  filter, has_char, unwrap_or,
}
use symantic_weft.Prelude.Action.{Action, for_each, continue}
use symantic_weft.Platform.{Platform}
use symantic_weft.Core.Types.{
  SemanticUnit, Visibility, public, network, limited, effective_visibility,
}
use symantic_weft.Node.Storage.{StorageError}
use symantic_weft.Node.Storage.Interface.{Storage}
use symantic_weft.Node.Handlers.Units.Fanout.{
  deliver_registered, deliver_local, fan_out_as, local_fanout,
}

module _ {S E : Type 0} where
  continue_same :
      {A B : Type 0} (r : Result A E) (f g : A → Action S E B) (s : S)
      → ((a : A) → f a s ≡ g a s)
      → continue r f s ≡ continue r g s
  continue_same (ok a) f g s h = h a
  continue_same (err e) f g s h = refl

  -- A loop stops at the first failure, whatever is left.
  for_each_stops :
      {A : Type 0} (f : A → Action S E (Unit {0})) (before rest : List A) (a : A) (e : E)
      (s t t' : S)
      → for_each f before s ≡ (ok tt, t)
      → f a t ≡ (err e, t')
      → for_each f (before ++ (a ∷ rest)) s ≡ (err e, t')
  for_each_stops f [] rest a e s t t' h k =
      let stopped : f a s ≡ (err e, t') = ap (f a) (ap (λ r. r.1) h) ∙ k in
      ap (λ (r : Result (Unit {0}) E × S). continue r.0 (λ _. for_each f rest) r.1) stopped
  for_each_stops f (b ∷ before) rest a e s t t' h k =
      first (λ s' m. for_each_stops f before rest a e s' t t' m k) (f b s) h
    where
      first :
          ((s' : S)
            → for_each f before s' ≡ (ok tt, t)
            → for_each f (before ++ (a ∷ rest)) s' ≡ (err e, t'))
          → (r : Result (Unit {0}) E × S) → continue r.0 (λ _. for_each f before) r.1 ≡ (ok tt, t)
          → continue r.0 (λ _. for_each f (before ++ (a ∷ rest))) r.1 ≡ (err e, t')
      first later (ok _, s') h = later s' h
      first later (err x, s') h = cc

module _ (P : Platform) (S : Storage P) where
  for_each-deliver_local :
      (u : SemanticUnit P) (l : List String) (s : S.State)
      → for_each (deliver_local P S u) l s
        ≡ for_each (deliver_registered P S u) (filter (λ d. not (has_char b'@' d)) l) s
  unfolding deliver_local
  for_each-deliver_local u [] s = refl
  for_each-deliver_local u (did ∷ l) s = elim (Bool-cases (has_char b'@' did)) [
    | inl e ↦ rw e (for_each-deliver_local u l s)
    | inr e ↦ rw e (
        continue_same (deliver_registered P S u did s).0 _ _ (deliver_registered P S u did s).1
          (λ _. for_each-deliver_local u l (deliver_registered P S u did s).1))
  ]

  -- The agents that a unit of this visibility is offered to, in order, and the storage once they are
  -- known
  abbrev pub AreTargets : SemanticUnit P → Visibility → S.State → List String → S.State → Type 0
  AreTargets u public s l t = ⊥
  AreTargets u network s l t = S.list_followers u.author s ≡ (ok l, t)
  AreTargets u limited s l t =
      (filter (λ d. not (has_char b'@' d)) (unwrap_or u.audience []) ≡ l) × (t ≡ s)

  fan_out_as-targets :
      (u : SemanticUnit P) (v : Visibility) (s t : S.State) (l : List String)
      → AreTargets u v s l t
      → fan_out_as P S u v s ≡ for_each (deliver_registered P S u) l t
  unfolding fan_out_as
  fan_out_as-targets u public s t l h = absurd h
  fan_out_as-targets u network s t l h =
      ap
        (λ (r : Result (List String) StorageError × S.State).
          continue r.0 (for_each (deliver_registered P S u)) r.1)
        h
  fan_out_as-targets u limited s t l (h, k) =
      for_each-deliver_local u (unwrap_or u.audience []) s
      ∙ (λ i. for_each (deliver_registered P S u) (h i) (sym k i))

  deliver_registered_fails :
      (u : SemanticUnit P) (did : String) (e : StorageError) (s t : S.State)
      → S.get_agent did s ≡ (err e, t)
      → deliver_registered P S u did s ≡ (err e, t)
  unfolding deliver_registered
  deliver_registered_fails u did e s t h = rw (h, deliver_registered) refl

-- On any storage: where delivery to the first recipients went through and the lookup of the next one
-- fails, fan-out on this node ends with that error in the state behind the lookup, whoever was still
-- to come.
pub local_fanout_aborts :
    (P : Platform) (S : Storage P) (u : SemanticUnit P) (before rest : List String) (did : String)
    (e : StorageError) (s s' t t' : S.State)
    → AreTargets P S u (effective_visibility u) s (before ++ (did ∷ rest)) s'
    → for_each (deliver_registered P S u) before s' ≡ (ok tt, t)
    → S.get_agent did t ≡ (err e, t')
    → local_fanout P S u s ≡ (err e, t')
unfolding local_fanout
local_fanout_aborts P S u before rest did e s s' t t' targets served failed =
    fan_out_as-targets P S u (effective_visibility u) s s' (before ++ (did ∷ rest)) targets
    ∙ for_each_stops (deliver_registered P S u) before rest did e s' t t' served
        (deliver_registered_fails P S u did e t t' failed)

-- ===== src/Prelude/Action.antt =====
-- Methods on shared state that may fail. What was written before a failure stays written, so the
-- state comes back beside the error too.
use symantic_weft.Prelude.Tests.{Result, ok, err}
use mathlib.Core.List.{List, [], ◌∷◌}

abbrev pub Action : Type 0 → Type 0 → Type 0 → Type 0
Action S E A = S → Result A E × S

module _ {S E : Type 0} where
  abbrev pub pure : {A : Type 0} → A → Action S E A
  pure a s = (ok a, s)

  abbrev pub fail : {A : Type 0} → E → Action S E A
  fail e s = (err e, s)

  abbrev pub get_state : Action S E S
  get_state s = (ok s, s)

  abbrev pub modify : (S → S) → Action S E (Unit {0})
  modify f s = (ok tt, f s)

  abbrev pub from_result : {A : Type 0} → Result A E → Action S E A
  from_result r s = (r, s)

  abbrev pub continue : {A B : Type 0} → Result A E → (A → Action S E B) → S → Result B E × S
  continue (ok a) f s = f a s
  continue (err e) f s = (err e, s)

  infixl 5 ◌>>=◌ ◌>>◌
  abbrev pub ◌>>=◌ : {A B : Type 0} → Action S E A → (A → Action S E B) → Action S E B
  ◌>>=◌ m f s = continue (m s).0 f (m s).1

  abbrev pub ◌>>◌ : {B : Type 0} → Action S E (Unit {0}) → Action S E B → Action S E B
  ◌>>◌ m k s = continue (m s).0 (λ _. k) (m s).1

  -- `let _ = m;`, or a log of the error
  abbrev pub ignore : {A : Type 0} → Action S E A → Action S E (Unit {0})
  ignore m s = (ok tt, (m s).1)

  -- `for a in l { f(a)? }`
  abbrev pub for_each : {A : Type 0} → (A → Action S E (Unit {0})) → List A → Action S E (Unit {0})
  for_each f [] s = (ok tt, s)
  for_each f (a ∷ l) s = continue (f a s).0 (λ _. for_each f l) (f a s).1

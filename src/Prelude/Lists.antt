-- ===== src/Prelude/Lists.antt =====
-- Lists measured by the native numbers, Boolean filters, and membership by recursion.
use Prim.Native.Nat.{ℕ, zero, suc, ◌+◌, ◌≤◌, ◌<◌, min}
use mathlib.Core.Path.{◌≡◌, refl, sym, ap, subst}
use mathlib.Core.Logic.{◌⊎◌, inl, inr}
use mathlib.Core.Bool.{Bool, true, false, ◌||◌}
use mathlib.Core.Option.{Option, none, some}
use mathlib.Core.List.{List, [], ◌∷◌, ◌++◌}
use native.Mathlib.Omega.{arith}
use symantic_weft.Prelude.Tests.{if◌then◌else◌, Bool-cases}

module _ {ℓ} {A : Type ℓ} where
  abbrev pub length : List A → ℕ
  length [] = 0
  length (x ∷ xs) = suc (length xs)

  abbrev pub take : ℕ → List A → List A
  take zero xs = []
  take (suc n) [] = []
  take (suc n) (x ∷ xs) = x ∷ take n xs

  abbrev pub drop : ℕ → List A → List A
  drop zero xs = xs
  drop (suc n) [] = []
  drop (suc n) (x ∷ xs) = drop n xs

  abbrev pub any : (A → Bool) → List A → Bool
  any p [] = false
  any p (x ∷ xs) = p x || any p xs

  -- `iter.filter(p)`
  abbrev pub filter : (A → Bool) → List A → List A
  filter p [] = []
  filter p (x ∷ xs) = let rest = filter p xs in if p x then x ∷ rest else rest

  -- `iter.find(p)`
  abbrev pub find : (A → Bool) → List A → Option A
  find p [] = none
  find p (x ∷ xs) = if p x then some x else find p xs

  -- `list.last()`
  abbrev pub last? : List A → Option A
  last? [] = none
  last? (x ∷ []) = some x
  last? (x ∷ y ∷ xs) = last? (y ∷ xs)

  pub length-append : (xs ys : List A) → length (xs ++ ys) ≡ length xs + length ys
  length-append [] ys = omega arith
  length-append (x ∷ xs) ys = omega (arith, length-append xs ys)

  pub length-take : (n : ℕ) (xs : List A) → length (take n xs) ≡ min n (length xs)
  length-take zero xs = omega arith
  length-take (suc n) [] = omega arith
  length-take (suc n) (x ∷ xs) = omega (arith, length-take n xs)

  pub take-append-drop : (n : ℕ) (xs : List A) → take n xs ++ drop n xs ≡ xs
  take-append-drop zero xs = refl
  take-append-drop (suc n) [] = refl
  take-append-drop (suc n) (x ∷ xs) = ap (◌∷◌ x) (take-append-drop n xs)

  pub take_of_length-le : (n : ℕ) (xs : List A) → length xs ≤ n → take n xs ≡ xs
  take_of_length-le zero l short = ground arith
  take_of_length-le (suc n) [] short = refl
  take_of_length-le (suc n) (a ∷ l) short = ground (arith, take_of_length-le n l)

  pub take-take-suc : (n : ℕ) (xs : List A) → take n (take (suc n) xs) ≡ take n xs
  take-take-suc zero xs = refl
  take-take-suc (suc n) [] = refl
  take-take-suc (suc n) (x ∷ xs) = ap (◌∷◌ x) (take-take-suc n xs)

  -- A prefix that is not empty has a last item.
  pub last?-take :
      (n : ℕ) (xs : List A) → 0 < n → 0 < length xs → (x : A) × (last? (take n xs) ≡ some x)
  last?-take zero xs h k = absurd (omega arith)
  last?-take (suc n) [] h k = absurd (omega arith)
  last?-take (suc zero) (x ∷ xs) h k = (x, refl)
  last?-take (suc (suc n)) (x ∷ []) h k = (x, refl)
  last?-take (suc (suc n)) (x ∷ y ∷ xs) h k =
      last?-take (suc n) (y ∷ xs) (omega arith) (omega arith)

  pub length-filter-le : (p : A → Bool) (xs : List A) → length (filter p xs) ≤ length xs
  length-filter-le p [] = omega arith
  length-filter-le p (x ∷ xs) = ground (arith, length-filter-le p xs)

-- `x` stands in the list, and every item satisfies `P`.
module _ {A : Type 0} where
  abbrev pub Among : A → List A → Type 0
  Among x [] = ⊥
  Among x (y ∷ ys) = (x ≡ y) ⊎ Among x ys

  abbrev pub All : (A → Type 0) → List A → Type 0
  All P [] = Unit
  All P (x ∷ xs) = P x × All P xs

  pub Among-append_left : (x : A) (xs ys : List A) → Among x xs → Among x (xs ++ ys)
  Among-append_left x [] ys h = absurd h
  Among-append_left x (y ∷ xs) ys (inl e) = inl e
  Among-append_left x (y ∷ xs) ys (inr h) = inr (Among-append_left x xs ys h)

  pub Among-append_right : (x : A) (xs ys : List A) → Among x ys → Among x (xs ++ ys)
  Among-append_right x [] ys h = h
  Among-append_right x (y ∷ xs) ys h = inr (Among-append_right x xs ys h)

  pub Among-append : (x : A) (xs ys : List A) → Among x (xs ++ ys) → Among x xs ⊎ Among x ys
  Among-append x [] ys h = inr h
  Among-append x (y ∷ xs) ys (inl e) = inl (inl e)
  Among-append x (y ∷ xs) ys (inr h) = elim (Among-append x xs ys h) [
    | inl k ↦ inl (inr k)
    | inr k ↦ inr k
  ]

  pub Among-filter :
      (x : A) (p : A → Bool) (xs : List A) → Among x (filter p xs) → Among x xs × (p x ≡ true)
  Among-filter x p [] h = absurd h
  Among-filter x p (y ∷ xs) h = ground (arith, Among-filter x p xs)

  pub Among-filter_of :
      (x : A) (p : A → Bool) (xs : List A) → Among x xs → p x ≡ true → Among x (filter p xs)
  Among-filter_of x p [] h e = absurd h
  Among-filter_of x p (y ∷ xs) h e = ground (arith, Among-filter_of x p xs)

  pub Among-take : (x : A) (n : ℕ) (xs : List A) → Among x (take n xs) → Among x xs
  Among-take x zero xs h = absurd h
  Among-take x (suc n) [] h = absurd h
  Among-take x (suc n) (y ∷ xs) (inl e) = inl e
  Among-take x (suc n) (y ∷ xs) (inr h) = inr (Among-take x n xs h)

  pub All-among : (P : A → Type 0) (x : A) (xs : List A) → All P xs → Among x xs → P x
  All-among P x [] h m = absurd m
  All-among P x (y ∷ xs) h (inl e) = subst P (sym e) h.0
  All-among P x (y ∷ xs) h (inr m) = All-among P x xs h.1 m

  pub All-of_Among : (P : A → Type 0) (xs : List A) → ((x : A) → Among x xs → P x) → All P xs
  All-of_Among P [] f = tt
  All-of_Among P (x ∷ xs) f = (f x (inl refl), All-of_Among P xs (λ y m. f y (inr m)))

  -- `any` finds a witness, and a witness makes it true.
  pub any-Among :
      (p : A → Bool) (xs : List A) → any p xs ≡ true → (x : A) × Among x xs × (p x ≡ true)
  any-Among p [] h = cc
  any-Among p (x ∷ xs) h = elim (Bool-cases (p x)) [
    | inl e ↦ (x, inl refl, e)
    | inr e ↦ let (y, m, k) = any-Among p xs (ground arith) in (y, inr m, k)
  ]

  pub any_of_Among :
      (p : A → Bool) (x : A) (xs : List A) → Among x xs → p x ≡ true → any p xs ≡ true
  any_of_Among p x [] h e = absurd h
  any_of_Among p x (y ∷ xs) h e = ground (arith, any_of_Among p x xs)

  pub find-Among :
      (p : A → Bool) (x : A) (xs : List A) → find p xs ≡ some x → Among x xs × (p x ≡ true)
  find-Among p x [] h = cc
  find-Among p x (y ∷ xs) h = ground (arith, find-Among p x xs)

pub List-cases {ℓ} :
    {A : Type ℓ} (l : List A) → (l ≡ []) ⊎ ((x : A) × (rest : List A) × (l ≡ x ∷ rest))
List-cases [] = inl refl
List-cases (x ∷ rest) = inr (x, rest, refl)

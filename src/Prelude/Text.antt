-- ===== src/Prelude/Text.antt =====
-- Texts as Rust has them: their order, their characters and their concatenation.
pub mod Prefix
use Prim.Native.Nat.{ℕ, Ordering, compare as compare_ℕ}
use symantic_weft.Prelude.Tests.{eqb, if◌then◌else◌}
use Prim.Native.Char.{code}
use Prim.Native.String.compare
use Prim.Native.String.{String, [], ◌∷◌, ◌++◌, compare, then as ordered_then}
use mathlib.Core.Path.{◌≡◌, ◌∙◌, sym}
use mathlib.Core.Bool.{Bool, true, false, ◌||◌}
use mathlib.Core.Option.{Option, none, some}
use mathlib.Core.List
use mathlib.Core.List.{List}
use native.Mathlib.Omega.{arith}
use text.Mathlib.Text.{◌==◌}
use text.Mathlib.TextPositions.{compare_refl}

-- `format!("{}{}", s, t)`
abbrev pub concat : String → String → String
concat s t = s ++ t

-- `s.starts_with('…')`, for a character given by its number
abbrev pub starts_with_char : ℕ → String → Bool
starts_with_char n [] = false
starts_with_char n (c ∷ s) = eqb (code c) n

-- `s.contains('…')`
abbrev pub has_char : ℕ → String → Bool
has_char n [] = false
has_char n (c ∷ s) = eqb (code c) n || has_char n s

-- `s.split('…').next()`: the text before the first such character
abbrev pub before_char : ℕ → String → String
before_char n [] = []
before_char n (c ∷ s) =
    let rest = before_char n s in elim (eqb (code c) n) [ true ↦ [] | false ↦ c ∷ rest ]

-- `s.strip_prefix("…")`
unfoldable pub strip_prefix : String → String → Option String
strip_prefix [] s = some s
strip_prefix (c ∷ p) [] = none
strip_prefix (c ∷ p) (d ∷ s) =
    let rest = strip_prefix p s in if eqb (code c) (code d) then rest else none

-- `s.split('…')`
unfoldable pub split_char : ℕ → String → String × List String
split_char n [] = ("", List.[])
split_char n (c ∷ s) =
    let rest = split_char n s in
    if eqb (code c) n then ("", List.◌∷◌ rest.0 rest.1) else (c ∷ rest.0, rest.1)

abbrev pub str_compare : String → String → Ordering
str_compare = compare

abbrev pub str_lt : String → String → Bool
str_lt s t = elim (compare s t) [ Ordering.lt ↦ true | _ ↦ false ]

abbrev pub str_le : String → String → Bool
str_le s t = elim (compare s t) [ Ordering.gt ↦ false | _ ↦ true ]

then_trans :
    (a b c : ℕ) (o p q : Ordering)
    → (o ≡ Ordering.lt → p ≡ Ordering.lt → q ≡ Ordering.lt)
    → ordered_then (compare_ℕ a b) o ≡ Ordering.lt
    → ordered_then (compare_ℕ b c) p ≡ Ordering.lt
    → ordered_then (compare_ℕ a c) q ≡ Ordering.lt
then_trans a b c o p q f h k = ground arith

then_flip :
    (a b : ℕ) (o p : Ordering)
    → (o ≡ Ordering.gt → p ≡ Ordering.lt)
    → ordered_then (compare_ℕ a b) o ≡ Ordering.gt
    → ordered_then (compare_ℕ b a) p ≡ Ordering.lt
then_flip a b o p f h = ground arith

pub compare_trans :
    (s t u : String)
    → compare s t ≡ Ordering.lt
    → compare t u ≡ Ordering.lt
    → compare s u ≡ Ordering.lt
compare_trans [] [] u h k = k
compare_trans [] (d ∷ t) [] h k = cc (compare.cons-nil d t)
compare_trans [] (d ∷ t) (e ∷ u) h k = compare.nil-cons e u
compare_trans (c ∷ s) [] u h k = cc (compare.cons-nil c s)
compare_trans (c ∷ s) (d ∷ t) [] h k = cc (compare.cons-nil d t)
compare_trans (c ∷ s) (d ∷ t) (e ∷ u) h k =
    compare.cons-cons c e s u
    ∙ then_trans (code c) (code d) (code e) (compare s t) (compare t u) (compare s u)
        (compare_trans s t u) (sym (compare.cons-cons c d s t) ∙ h)
        (sym (compare.cons-cons d e t u) ∙ k)

pub compare_flip : (s t : String) → compare s t ≡ Ordering.gt → compare t s ≡ Ordering.lt
compare_flip [] [] h = cc
compare_flip [] (d ∷ t) h = cc (compare.nil-cons d t)
compare_flip (c ∷ s) [] h = compare.nil-cons c s
compare_flip (c ∷ s) (d ∷ t) h =
    compare.cons-cons d c t s
    ∙ then_flip (code c) (code d) (compare s t) (compare t s) (compare_flip s t)
        (sym (compare.cons-cons c d s t) ∙ h)

pub str_lt_trans : (s t u : String) → str_lt s t ≡ true → str_lt t u ≡ true → str_lt s u ≡ true
str_lt_trans s t u h k = ground (arith, compare_trans s t u)

pub str_lt_irrefl : (s : String) → str_lt s s ≡ false
str_lt_irrefl s = ground (arith, compare_refl s)

pub str_lt_asymm : (s t : String) → str_lt s t ≡ true → str_lt t s ≡ false
str_lt_asymm s t h = ground (arith, compare_trans s t s, compare_refl s)

-- What is neither below nor equal is above.
pub str_lt_of_ge : (s t : String) → str_lt s t ≡ false → s == t ≡ false → str_lt t s ≡ true
str_lt_of_ge s t h k = ground (arith, compare_flip s t)

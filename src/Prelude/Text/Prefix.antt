-- ===== src/Prelude/Text/Prefix.antt =====
-- Prefixes of texts, as `strip_prefix` takes them off.
use Prim.Native.Char.{Char, code}
use Prim.Native.String.append
use Prim.Native.String.compare
use Prim.Native.String.{then as ordered_then}
use text.Mathlib.TextPositions.{compare_refl}
use Prim.Native.Nat.{compare as compare_ℕ}
use mathlib.Core.Option.{some-injective}
use symantic_weft.Prelude.{
  ℕ, Ordering, true, false, none, some, String, eqb, eq_iff, concat, arith, ◌≡◌, refl, ap, sym, ◌∙◌,
  strip_prefix, str_compare, Bool-cases, inl, inr,
}

eqb_refl : (n : ℕ) → eqb n n ≡ true
eqb_refl n = ground arith

strip_prefix-same :
    (c : Char) (p s : String) → strip_prefix (String.◌∷◌ c p) (String.◌∷◌ c s) ≡ strip_prefix p s
unfolding strip_prefix
strip_prefix-same c p s = rw (eqb_refl (code c), strip_prefix) refl

pub strip_prefix-concat : (p s : String) → strip_prefix p (concat p s) ≡ some s
unfolding strip_prefix
strip_prefix-concat String.[] s = ap some (append.nil s)
strip_prefix-concat (String.◌∷◌ c p) s =
    ap (strip_prefix (String.◌∷◌ c p)) (append.cons c p s)
    ∙ strip_prefix-same c p (concat p s)
    ∙ strip_prefix-concat p s

pub strip_prefix-other :
    (c d : Char) (p s : String)
    → eqb (code c) (code d) ≡ false
    → strip_prefix (String.◌∷◌ c p) (String.◌∷◌ d s) ≡ none
unfolding strip_prefix
strip_prefix-other c d p s h = rw (h, strip_prefix) refl

same_code : (a b : ℕ) (o : Ordering) → eqb a b ≡ true → ordered_then (compare_ℕ a b) o ≡ o
same_code a b o h = ground arith

is_equal : (s t : String) → str_compare s t ≡ Ordering.eq → s ≡ t
is_equal s t h = (eq_iff s t).0 (rw h refl)

-- Characters with the same number are the same.
pub same_char :
    (c d : Char) (s : String) → eqb (code c) (code d) ≡ true → String.◌∷◌ c s ≡ String.◌∷◌ d s
same_char c d s h =
    is_equal (String.◌∷◌ c s) (String.◌∷◌ d s)
      (compare.cons-cons c d s s ∙ same_code (code c) (code d) (str_compare s s) h ∙ compare_refl s)

-- What is left when a prefix is taken off, the prefix completes to the text.
pub strip_prefix_sound : (p s t : String) → strip_prefix p s ≡ some t → s ≡ concat p t
unfolding strip_prefix
strip_prefix_sound String.[] s t h = some-injective s t h ∙ sym (append.nil t)
strip_prefix_sound (String.◌∷◌ c p) String.[] t h = cc
strip_prefix_sound (String.◌∷◌ c p) (String.◌∷◌ d s) t h =
    elim (Bool-cases (eqb (code c) (code d))) [
      | inl e ↦
          let same = strip_prefix-same c p s in
          sym (same_char c d s e)
          ∙ ap (String.◌∷◌ c) (strip_prefix_sound p s t (ground arith))
          ∙ sym (append.cons c p t)
      | inr e ↦ cc (strip_prefix-other c d p s e)
    ]

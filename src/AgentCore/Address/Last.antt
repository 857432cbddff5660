-- ===== src/AgentCore/Address/Last.antt =====
-- What the split of packages/agent-core/src/address.rs at the last `@` finds.
use Prim.Native.Char.{Char, code}
use Prim.Native.String.append
use mathlib.Core.Option.{some-injective}
use symantic_weft.Prelude.{
  ℕ, true, false, none, some, Option-cases, Bool-cases, inl, inr, String, eqb, has_char, concat,
  arith, ◌≡◌, refl, ap, sym, ◌∙◌, subst, if◌then◌else◌,
}
use symantic_weft.Prelude.Text.Prefix.{same_char}
use symantic_weft.AgentCore.Address.{split_last}
use symantic_weft.AgentCore.Address.RoundTrip.{split_last-cons, at_text}

-- The parts of a text around its last `@`
abbrev pub AreParts : String → String × String → Type 0
AreParts s parts = (s ≡ concat parts.0 (concat "@" parts.1)) × (has_char b'@' parts.1 ≡ false)

split_last-none : (n : ℕ) (s : String) → split_last n s ≡ none → has_char n s ≡ false
unfolding split_last
split_last-none n String.[] h = refl
split_last-none n (String.◌∷◌ c s) h = ground (arith, split_last-none n s)

split_last-here :
    (n : ℕ) (c : Char) (s : String)
    → split_last n s ≡ none
    → split_last n (String.◌∷◌ c s) ≡ (if eqb (code c) n then some (String.[], s) else none)
unfolding split_last
split_last-here n c s h = rw (h, split_last) refl

AreParts-cons :
    (c : Char) (s a b : String) → AreParts s (a, b) → AreParts (String.◌∷◌ c s) (String.◌∷◌ c a, b)
AreParts-cons c s a b (e, h) = (ap (String.◌∷◌ c) e ∙ sym (append.cons c a (concat "@" b)), h)

AreParts-here :
    (c : Char) (s : String)
    → eqb (code c) b'@' ≡ true
    → has_char b'@' s ≡ false
    → AreParts (String.◌∷◌ c s) ("", s)
AreParts-here c s e h = (same_char c "@" s e ∙ sym (append.nil (concat "@" s) ∙ at_text s), h)

pub split_last-AreParts :
    (s : String) (parts : String × String) → split_last b'@' s ≡ some parts → AreParts s parts
unfolding split_last
split_last-AreParts String.[] parts h = cc
split_last-AreParts (String.◌∷◌ c s) parts h = elim (Option-cases (split_last b'@' s)) [
  | inr ((a, b), found) ↦
      subst (AreParts (String.◌∷◌ c s))
        (some-injective (String.◌∷◌ c a, b) parts (sym (split_last-cons b'@' c s a b found) ∙ h))
        (AreParts-cons c s a b (split_last-AreParts s (a, b) found))
  | inl absent ↦ elim (Bool-cases (eqb (code c) b'@')) [
    | inl e ↦
        subst (AreParts (String.◌∷◌ c s))
          (some-injective (String.[], s) parts
            (sym (split_last-here b'@' c s absent ∙ rw e refl) ∙ h))
          (AreParts-here c s e (split_last-none b'@' s absent))
    | inr e ↦ cc (split_last-here b'@' c s absent, e)
  ]
]

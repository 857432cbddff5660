-- ===== src/AgentCore/Address/RoundTrip.antt =====
-- Parsing what was printed, in packages/agent-core/src/address.rs.
use Prim.Native.Char.{Char}
use Prim.Native.String.append
use symantic_weft.Prelude.{
  ℕ, false, none, some, String, ◌≡◌, ◌≢◌, refl, ap, ◌∙◌, ok, arith, eq_iff, has_char, concat,
}
use symantic_weft.AgentCore.Address.{
  AgentAddress, split_last, parse_address, display_address, checked_address,
}

split_last-without : (n : ℕ) (s : String) → has_char n s ≡ false → split_last n s ≡ none
unfolding split_last
split_last-without n String.[] h = refl
split_last-without n (String.◌∷◌ c s) h = ground (arith, split_last-without n s)

pub at_text : (s : String) → concat "@" s ≡ String.◌∷◌ "@" s
at_text s = append.cons "@" String.[] s ∙ ap (String.◌∷◌ "@") (append.nil s)

split_last-at :
    (t : String) → has_char b'@' t ≡ false → split_last b'@' (String.◌∷◌ "@" t) ≡ some ("", t)
unfolding split_last
split_last-at t h = rw (split_last-without b'@' t h) refl

pub split_last-cons :
    (n : ℕ) (c : Char) (s a b : String)
    → split_last n s ≡ some (a, b)
    → split_last n (String.◌∷◌ c s) ≡ some (String.◌∷◌ c a, b)
unfolding split_last
split_last-cons n c s a b h = rw (h, split_last) refl

parse_address-split_last :
    (trim : String → String) (s a b : String)
    → split_last b'@' s ≡ some (a, b)
    → parse_address trim s ≡ checked_address s (trim a) (trim b)
unfolding parse_address
parse_address-split_last trim s a b h = rw (h, parse_address) refl

-- The last separator is the one in front of a text without any.
pub split_last-concat :
    (s t : String)
    → has_char b'@' t ≡ false
    → split_last b'@' (concat s (concat "@" t)) ≡ some (s, t)
split_last-concat String.[] t h =
    ap (split_last b'@') (append.nil (concat "@" t) ∙ at_text t) ∙ split_last-at t h
split_last-concat (String.◌∷◌ c s) t h =
    ap (split_last b'@') (append.cons c s (concat "@" t))
    ∙ split_last-cons b'@' c (concat s (concat "@" t)) s t (split_last-concat s t h)

checked_address-ok :
    (s : String) (a : AgentAddress)
    → a.did ≢ ""
    → a.hostname ≢ ""
    → checked_address s a.did a.hostname ≡ ok a
checked_address-ok s a d k = ground (arith, eq_iff a.did "", eq_iff a.hostname "")

-- An address whose parts are not empty and are left alone by `trim`, with no `@` in the hostname, is
-- parsed back from its text, whatever the DID holds.
pub parse_address-display_address :
    (trim : String → String) (a : AgentAddress)
    → has_char b'@' a.hostname ≡ false
    → trim a.did ≡ a.did
    → trim a.hostname ≡ a.hostname
    → a.did ≢ ""
    → a.hostname ≢ ""
    → parse_address trim (display_address a) ≡ ok a
parse_address-display_address trim a plain did host d k =
    parse_address-split_last trim (display_address a) a.did a.hostname
      (split_last-concat a.did a.hostname plain)
    ∙ (λ i. checked_address (display_address a) (did i) (host i))
    ∙ checked_address-ok (display_address a) a d k

-- ===== src/Core/Validation/Specified.antt =====
-- The units that spec/semantic-unit.md and its schema call valid, before `validate_unit` of
-- packages/core/src/validation.rs.
use Prim.Native.Char.{code}
use symantic_weft.Prelude.{
  ℕ, Bool, true, false, ◌&&◌, ◌||◌, none, List, [], ◌∷◌, ◌++◌, String, leb, eqb, if◌then◌else◌, ◌≡◌,
  ◌≢◌,
}
use symantic_weft.Platform.{Platform}
use symantic_weft.Core.Types.{SemanticUnit, Source, uri, labeled}
use symantic_weft.Core.Validation.Conforms.{WhenPresent, Obeys}

-- A lowercase hexadecimal digit, by its number
abbrev pub is_hex : ℕ → Bool
is_hex n = (leb 48 n && leb n 57) || (leb 97 n && leb n 102)

abbrev pub is_dash : ℕ → Bool
is_dash n = eqb n b'-'

-- `[89ab]`
abbrev pub is_variant : ℕ → Bool
is_variant n = (leb 56 n && leb n 57) || (leb 97 n && leb n 98)

abbrev pub hex4 : List (ℕ → Bool)
hex4 = is_hex ∷ is_hex ∷ is_hex ∷ is_hex ∷ []

-- `^[0-9a-f]{8}-[0-9a-f]{4}-7[0-9a-f]{3}-[89ab][0-9a-f]{3}-[0-9a-f]{12}$`
abbrev pub id_pattern : List (ℕ → Bool)
id_pattern =
    hex4
    ++ hex4
    ++ (is_dash ∷ hex4)
    ++ (is_dash ∷ (λ n. eqb n b'7') ∷ is_hex ∷ is_hex ∷ is_hex ∷ [])
    ++ (is_dash ∷ is_variant ∷ is_hex ∷ is_hex ∷ is_hex ∷ [])
    ++ (is_dash ∷ hex4 ++ hex4 ++ hex4)

-- One character for each class
unfoldable pub fits : List (ℕ → Bool) → String → Bool
fits [] String.[] = true
fits [] (String.◌∷◌ c s) = false
fits (p ∷ ps) String.[] = false
fits (p ∷ ps) (String.◌∷◌ c s) = let rest = fits ps s in if p (code c) then rest else false

abbrev pub IsSpecifiedId : String → Type 0
IsSpecifiedId s = fits id_pattern s ≡ true

-- The schema asks for a citation that is not empty.
abbrev pub IsCitation : Source → Type 0
IsCitation (uri text) = text ≢ ""
IsCitation (labeled label link) = label ≢ ""

-- Valid after the specification, which knows no proof among the fields
pub record IsSpecified (P : Platform) (u : SemanticUnit P) : Type 0 where
  pub rules : Obeys P IsSpecifiedId u
  pub source : WhenPresent IsCitation u.source
  pub no_proof : u.proof ≡ none

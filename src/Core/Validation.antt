-- ===== src/Core/Validation.antt =====
-- packages/core/src/validation.rs: the checks of a unit, in their order.
mod Extension
pub mod Conforms
pub mod Specified
pub mod Messages
pub use Extension.{IsExtensionName, is_extension_name_iff}
unfoldable pub use Extension.{is_extension_name}
use symantic_weft.Prelude.{
  ℕ, suc, ◌+◌, Bool, true, false, not, Option, none, some, List, [], ◌∷◌, String, ◌==◌, ◌&&◌, eqb,
  if◌then◌else◌, Result, ok, err, ◌>>=◌, ◌>>◌, require, starts_with_char, concat,
}
use symantic_weft.Prelude.Map.{Map}
use symantic_weft.Platform.{Platform}
use symantic_weft.Core.Types.{SemanticUnit, Reference, Proof, Visibility, public, network, limited}

pub data ValidationError (P : Platform) : Type 0 where
  invalid_id : String → ValidationError P
  empty_content : ValidationError P
  empty_author : ValidationError P
  invalid_timestamp : String → ValidationError P
  invalid_confidence : P.f64.Carrier → ValidationError P
  empty_assumptions : ValidationError P
  empty_assumption_item : ℕ → ValidationError P
  empty_references : ValidationError P
  invalid_reference_id : ℕ → String → ValidationError P
  invalid_extension_field_name : String → ValidationError P
  audience_required_for_limited : ValidationError P
  audience_forbidden_for_non_limited : ValidationError P
  empty_audience : ValidationError P
  empty_audience_item : ℕ → ValidationError P
  invalid_proof_shape : String → ValidationError P

module _ (P : Platform) where
  -- `validate_uuid_v7(s).is_ok()`
  unfoldable pub is_uuid_v7 : String → Bool
  is_uuid_v7 s = elim (P.uuid_version s) [ none ↦ false | some v ↦ eqb v 7 ]

  -- `(0.0..=1.0).contains(&c)`
  unfoldable pub in_unit_interval : P.f64.Carrier → Bool
  in_unit_interval c = P.f64.le (P.f64.literal 0 1) c && P.f64.le c (P.f64.literal 1 1)

  abbrev pub Checked : Type 0
  Checked = Result (Unit {0}) (ValidationError P)

  -- `for (i, a) in items.iter().enumerate()`, with the error for an empty item
  unfoldable pub check_items : (ℕ → ValidationError P) → ℕ → List String → Checked
  check_items fault i [] = ok tt
  check_items fault i (a ∷ rest) = do
    require (not (a == "")) (fault i)
    check_items fault (i + 1) rest

  unfoldable pub check_confidence : Option P.f64.Carrier → Checked
  check_confidence none = ok tt
  check_confidence (some c) = require (in_unit_interval c) (invalid_confidence c)

  unfoldable pub check_assumptions : Option (List String) → Checked
  check_assumptions none = ok tt
  check_assumptions (some []) = err empty_assumptions
  check_assumptions (some (a ∷ rest)) = check_items empty_assumption_item 0 (a ∷ rest)

  unfoldable pub check_reference_ids : ℕ → List Reference → Checked
  check_reference_ids i [] = ok tt
  check_reference_ids i (r ∷ rest) = do
    require (is_uuid_v7 r.id) (invalid_reference_id i r.id)
    check_reference_ids (i + 1) rest

  unfoldable pub check_references : Option (List Reference) → Checked
  check_references none = ok tt
  check_references (some []) = err empty_references
  check_references (some (r ∷ rest)) = check_reference_ids 0 (r ∷ rest)

  unfoldable pub check_extensions : Map P.Value → Checked
  check_extensions [] = ok tt
  check_extensions ((key, _) ∷ rest) = do
    require (is_extension_name key) (invalid_extension_field_name key)
    check_extensions rest

  -- The `match` on `unit.visibility`, with the one on `unit.audience` inside.
  unfoldable pub check_audience : Option Visibility → Option (List String) → Checked
  check_audience (some limited) none = err audience_required_for_limited
  check_audience (some limited) (some []) = err audience_required_for_limited
  check_audience (some limited) (some (a ∷ rest)) = check_items empty_audience_item 0 (a ∷ rest)
  check_audience _ none = ok tt
  check_audience _ (some _) = err audience_forbidden_for_non_limited

  unfoldable pub check_proof : Option Proof → Checked
  check_proof none = ok tt
  check_proof (some p) = do
    require (not (p.method == "")) (invalid_proof_shape "method must not be empty")
    require (P.is_rfc3339 p.created) (
        invalid_proof_shape
          (concat "created " (concat (P.debug p.created) " is not a valid ISO 8601 date-time")))
    require (starts_with_char b'z' p.value)
        (invalid_proof_shape "value must start with 'z' (multibase base58btc prefix)")

  unfoldable pub validate_unit : SemanticUnit P → Checked
  validate_unit u = do
    require (is_uuid_v7 u.id) (invalid_id u.id)
    require (not (u.content == "")) empty_content
    require (not (u.author == "")) empty_author
    require (P.is_rfc3339 u.created_at) (invalid_timestamp u.created_at)
    check_confidence u.confidence
    check_assumptions u.assumptions
    check_references u.references
    check_extensions u.extensions
    check_audience u.visibility u.audience
    check_proof u.proof

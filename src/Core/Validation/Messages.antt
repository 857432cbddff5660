-- ===== src/Core/Validation/Messages.antt =====
-- The `Display` of `ValidationError` of packages/core/src/validation.rs.
use symantic_weft.Prelude.{String, concat}
use symantic_weft.Platform.{Platform}
use symantic_weft.Core.Validation.{
  ValidationError, invalid_id, empty_content, empty_author, invalid_timestamp, invalid_confidence,
  empty_assumptions, empty_assumption_item, empty_references, invalid_reference_id,
  invalid_extension_field_name, audience_required_for_limited, audience_forbidden_for_non_limited,
  empty_audience, empty_audience_item, invalid_proof_shape,
}

module _ (P : Platform) where
  unfoldable pub display_error : ValidationError P → String
  display_error (invalid_id s) = concat "id must be a valid UUIDv7 (RFC 9562), got: " (P.debug s)
  display_error empty_content = "content must not be empty"
  display_error empty_author = "author must not be empty"
  display_error (invalid_timestamp s) =
      concat "created_at must be a valid ISO 8601 date-time, got: " (P.debug s)
  display_error (invalid_confidence c) =
      concat "confidence must be between 0.0 and 1.0 inclusive, got " (P.display_f64 c)
  display_error empty_assumptions = "assumptions must contain at least one item when present"
  display_error (empty_assumption_item i) =
      concat "assumption at index " (concat (P.decimal i) " must not be empty")
  display_error empty_references = "references must contain at least one item when present"
  display_error (invalid_reference_id i s) =
      concat "reference id at index "
        (concat (P.decimal i) (concat " must be a valid UUIDv7, got: " (P.debug s)))
  display_error (invalid_extension_field_name s) = concat "extension field " (
      concat (P.debug s) (
        concat " is invalid; names must match x-<reverse-domain>.<name> "
          "(e.g. x-com.example.myfield) and be lowercase"))
  display_error audience_required_for_limited =
      "audience is required and must be non-empty when visibility is \"limited\""
  display_error audience_forbidden_for_non_limited =
      "audience must be absent when visibility is \"public\" or \"network\""
  display_error empty_audience = "audience must contain at least one item when present"
  display_error (empty_audience_item i) =
      concat "audience item at index " (concat (P.decimal i) " must not be empty")
  display_error (invalid_proof_shape s) = concat "proof shape is invalid: " s

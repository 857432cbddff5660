-- ===== src/Node/Error.antt =====
-- packages/node/src/error.rs: the errors of the handlers and their HTTP answers.
use symantic_weft.Prelude.{ℕ, String}
use symantic_weft.Node.Storage.{StorageError}

pub data AppError : Type 0 where
  not_found bad_request conflict unprocessable_entity internal forbidden unauthorized :
      String → AppError

-- `From<StorageError>`
abbrev pub from_storage : StorageError → AppError
from_storage StorageError.not_found = AppError.not_found "not found"
from_storage (StorageError.conflict msg) = AppError.conflict msg
from_storage (StorageError.internal msg) = AppError.internal msg

-- `into_response`: the status, the code and the message
unfoldable pub into_response : AppError → ℕ × String × String
into_response (AppError.not_found msg) = (404, "not_found", msg)
into_response (AppError.bad_request msg) = (400, "invalid_parameter", msg)
into_response (AppError.conflict msg) = (409, "id_conflict", msg)
into_response (AppError.unprocessable_entity msg) = (422, "validation_failed", msg)
into_response (AppError.internal msg) = (500, "internal_error", msg)
into_response (AppError.forbidden msg) = (403, "forbidden", msg)
into_response (AppError.unauthorized msg) = (401, "unauthorized", msg)

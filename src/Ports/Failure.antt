-- ===== src/Ports/Failure.antt =====
-- What a call of the service may throw: the program's own errors, errors of the language, and the
-- failures of a store that cannot be reached.
use pausemesh.Prelude.{Bool, true, false}
use pausemesh.Domain.Errors.{PauseMeshError, version_conflict}

-- The codes of the errors of the PostgreSQL store on streams.
pub data StoreErrorCode : Type 0 where
  corrupt_stream stream_too_large : StoreErrorCode

pub data Failure : Type 0 where
  domain : PauseMeshError → Failure
  store_error : StoreErrorCode → Failure
  range_error type_error internal_error storage_error : Failure

-- `error instanceof VersionConflictError`
abbrev pub is_version_conflict : Failure → Bool
is_version_conflict (domain (version_conflict _ _ _)) = true
is_version_conflict _ = false

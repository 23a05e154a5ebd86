-- ===== src/Domain/Errors.antt =====
-- domain/errors.ts: an error class is a constructor with its fields. Messages are not modelled.
use pausemesh.Prelude.{ℕ, Option}
use pausemesh.Domain.Types.{ContinuationId, ContinuationStatus}
use pausemesh.Domain.Events.{EventType}

pub data PauseMeshErrorCode : Type 0 where
  continuation_cancelled : PauseMeshErrorCode
  continuation_expired : PauseMeshErrorCode
  continuation_id_mismatch : PauseMeshErrorCode
  continuation_not_found : PauseMeshErrorCode
  idempotency_conflict : PauseMeshErrorCode
  invalid_transition : PauseMeshErrorCode
  token_already_used : PauseMeshErrorCode
  token_mismatch : PauseMeshErrorCode
  unsupported_schema_version : PauseMeshErrorCode
  version_conflict : PauseMeshErrorCode

-- In `invalid_transition` the status `none` stands for "missing".
pub data PauseMeshError : Type 0 where
  not_found : ContinuationId → PauseMeshError
  version_conflict :
      (continuation_id : ContinuationId) (expected_version actual_version : ℕ) → PauseMeshError
  invalid_transition :
      (continuation_id : ContinuationId) (from_status : Option ContinuationStatus)
      (event_type : EventType)
      → PauseMeshError
  id_mismatch : (expected actual : ContinuationId) → PauseMeshError
  unsupported_schema_version : ℕ → PauseMeshError
  token_mismatch : ContinuationId → PauseMeshError
  token_already_used : ContinuationId → PauseMeshError
  expired : ContinuationId → PauseMeshError
  cancelled : ContinuationId → PauseMeshError
  idempotency_conflict : ContinuationId → PauseMeshError

-- `error.code`
unfoldable pub code : PauseMeshError → PauseMeshErrorCode
code (not_found _) = continuation_not_found
code (version_conflict _ _ _) = PauseMeshErrorCode.version_conflict
code (invalid_transition _ _ _) = PauseMeshErrorCode.invalid_transition
code (id_mismatch _ _) = continuation_id_mismatch
code (unsupported_schema_version _) = PauseMeshErrorCode.unsupported_schema_version
code (token_mismatch _) = PauseMeshErrorCode.token_mismatch
code (token_already_used _) = PauseMeshErrorCode.token_already_used
code (expired _) = continuation_expired
code (cancelled _) = continuation_cancelled
code (idempotency_conflict _) = PauseMeshErrorCode.idempotency_conflict

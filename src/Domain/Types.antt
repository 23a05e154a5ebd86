-- ===== src/Domain/Types.antt =====
-- domain/types.ts. The envelope's union is its common fields, and the fields of its status.
-- Versions are counted exactly, as the program's numbers are up to 2^53 - 1.
use pausemesh.Prelude.{ℕ, ◌-◌, ◌^◌, Option}
use pausemesh.Prelude.Text.{Text}
use pausemesh.Json.{Json, JsonObject}

abbrev pub continuation_schema_version : ℕ
continuation_schema_version = 1

-- `Number.MAX_SAFE_INTEGER`
abbrev pub max_safe_integer : ℕ
max_safe_integer = 2 ^ 53 - 1

abbrev pub ContinuationId : Type 0
ContinuationId = Text

abbrev pub IsoTimestamp : Type 0
IsoTimestamp = Text

pub data ContinuationStatus : Type 0 where
  pending resumed cancelled expired : ContinuationStatus

-- What the envelope has beside the common fields, by its status.
pub data Lifecycle : Type 0 where
  pending : (resume_token_hash : Text) → Lifecycle
  resumed : (resumed_at idempotency_key : Text) (resume_payload : Json) → Lifecycle
  cancelled : (cancelled_at : Text) (reason : Option Text) → Lifecycle
  expired : (expired_at : Text) → Lifecycle

pub record ContinuationEnvelope : Type 0 where
  pub schema_version : ℕ
  pub continuation_id : ContinuationId
  pub correlation_id : Text
  pub version : ℕ
  pub created_at : IsoTimestamp
  pub expires_at : IsoTimestamp
  pub payload : Json
  pub metadata : JsonObject
  pub lifecycle : Lifecycle

abbrev pub status_of : Lifecycle → ContinuationStatus
status_of (Lifecycle.pending hash) = ContinuationStatus.pending
status_of (Lifecycle.resumed at key payload) = ContinuationStatus.resumed
status_of (Lifecycle.cancelled at reason) = ContinuationStatus.cancelled
status_of (Lifecycle.expired at) = ContinuationStatus.expired

-- `state.status`
abbrev pub status : ContinuationEnvelope → ContinuationStatus
status state = status_of state.lifecycle

-- ===== src/Adapters/Http/Errors.antt =====
-- What the handlers of adapters/http/app.ts throw, and `app.onError`.
use pausemesh.Prelude.{ℕ, ◌≤◌, List, arith}
use pausemesh.Domain.Types.{ContinuationEnvelope}
use pausemesh.Domain.Events.{ContinuationEvent}
use pausemesh.Domain.Errors.{
  PauseMeshError, PauseMeshErrorCode, cancelled, code, expired, id_mismatch, idempotency_conflict,
  invalid_transition, not_found, token_already_used, token_mismatch, unsupported_schema_version,
  version_conflict,
}
use pausemesh.Ports.Failure.{Failure, domain, storage_error, range_error, type_error, store_error}
use pausemesh.Service.Inputs.{CreatedContinuation}
use pausemesh.Adapters.Protocol.{
  ProtocolAdapterErrorCode, invalid_protocol_binding, invalid_protocol_message,
  invalid_protocol_transition, unsupported_protocol_capability,
}
use pausemesh.Adapters.A2a.{InterruptedTask}
use pausemesh.Adapters.Agui.Issuing.{AguiInterruptIssuance}
use pausemesh.Adapters.Mcp.Requests.{McpElicitationIssuance}

-- `ZodError` is `invalid_request`; a failure is an error of the service, or any other error.
pub data Thrown : Type 0 where
  payload_too_large : Thrown
  invalid_request : Thrown
  protocol : ProtocolAdapterErrorCode → Thrown
  failure : Failure → Thrown

pub data ErrorCode : Type 0 where
  payload_too_large invalid_request internal_error : ErrorCode
  unsupported_protocol : ErrorCode
  protocol : ProtocolAdapterErrorCode → ErrorCode
  pause_mesh : PauseMeshErrorCode → ErrorCode

pub data Projection : Type 0 where
  mcp_issuance : McpElicitationIssuance → Projection
  a2a_task : InterruptedTask → Projection
  ag_ui_issuance : AguiInterruptIssuance → Projection

pub data Body : Type 0 where
  created : CreatedContinuation → Body
  continuation : ContinuationEnvelope → Body
  events : (history : List ContinuationEvent) → Body
  projected : Projection → Body
  error : ErrorCode → Body

pub record Response : Type 0 where
  pub status : ℕ
  pub body : Body

unfoldable pub error_status : PauseMeshError → ℕ
error_status (not_found _) = 404
error_status (token_mismatch _) = 401
error_status (expired _) = 410
error_status (cancelled _) = 409
error_status (token_already_used _) = 409
error_status (idempotency_conflict _) = 409
error_status (invalid_transition _ _ _) = 409
error_status (version_conflict _ _ _) = 409
error_status (id_mismatch _ _) = 400
error_status (unsupported_schema_version _) = 400

protocol_status : ProtocolAdapterErrorCode → ℕ
protocol_status invalid_protocol_transition = 409
protocol_status invalid_protocol_binding = 400
protocol_status invalid_protocol_message = 400
protocol_status unsupported_protocol_capability = 400

abbrev response : ℕ → ErrorCode → Response
response status code = record { status = status; body = error code }

-- `app.onError`
unfoldable pub error_response : Thrown → Response
unfolding protocol_status
error_response Thrown.payload_too_large = response 413 ErrorCode.payload_too_large
error_response Thrown.invalid_request = response 400 ErrorCode.invalid_request
error_response (Thrown.protocol code) = response (protocol_status code) (ErrorCode.protocol code)
error_response (failure (domain e)) = response (error_status e) (pause_mesh (code e))
error_response (failure (store_error c)) = response 500 ErrorCode.internal_error
error_response (failure storage_error) = response 500 ErrorCode.internal_error
error_response (failure range_error) = response 500 ErrorCode.internal_error
error_response (failure type_error) = response 500 ErrorCode.internal_error
error_response (failure Failure.internal_error) = response 500 ErrorCode.internal_error

-- No error is answered with a status of success.
pub error_response_status : (thrown : Thrown) → 400 ≤ (error_response thrown).status
unfolding error_response error_status
error_response_status Thrown.payload_too_large = omega arith
error_response_status Thrown.invalid_request = omega arith
error_response_status (Thrown.protocol invalid_protocol_transition) = omega arith
error_response_status (Thrown.protocol invalid_protocol_binding) = omega arith
error_response_status (Thrown.protocol invalid_protocol_message) = omega arith
error_response_status (Thrown.protocol unsupported_protocol_capability) = omega arith
error_response_status (failure (domain e)) = at_least e
  where
    at_least : (e : PauseMeshError) → 400 ≤ error_status e
    at_least (not_found _) = omega arith
    at_least (token_mismatch _) = omega arith
    at_least (expired _) = omega arith
    at_least (cancelled _) = omega arith
    at_least (token_already_used _) = omega arith
    at_least (idempotency_conflict _) = omega arith
    at_least (invalid_transition _ _ _) = omega arith
    at_least (version_conflict _ _ _) = omega arith
    at_least (id_mismatch _ _) = omega arith
    at_least (unsupported_schema_version _) = omega arith
error_response_status (failure (store_error c)) = omega arith
error_response_status (failure storage_error) = omega arith
error_response_status (failure range_error) = omega arith
error_response_status (failure type_error) = omega arith
error_response_status (failure Failure.internal_error) = omega arith

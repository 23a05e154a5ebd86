-- ===== src/Adapters/A2a.antt =====
-- adapters/a2a/task.ts. The constant fields of the messages, their roles and the schema version,
-- are left out. The test of date texts is the schema library's.
pub mod Projections
use pausemesh.Prelude.{
  ℕ, ◌≡◌, refl, Bool, true, false, ◌&&◌, Option, none, some, Result, ok, err, ◌>>=◌, ◌>>◌, ltb,
  length, if◌then◌else◌,
}
use pausemesh.Prelude.Text.{Text, codes, text_eq}
use pausemesh.Json.{Json, str, obj, Entries, end, entry}
use pausemesh.Json.Fields.{field, as_text}
use pausemesh.Domain.Types.{ContinuationId, ContinuationEnvelope, IsoTimestamp, Lifecycle}
use pausemesh.Adapters.Identifiers.{is_opaque_id}
use pausemesh.Adapters.Payloads.{PayloadKind, input, authorization, payload_kind, payload_message}
use pausemesh.Adapters.Protocol.{
  ProtocolAdapterErrorCode, invalid_protocol_binding, invalid_protocol_message,
  invalid_protocol_transition, require,
}

pub record ContinuationPayload : Type 0 where
  pub kind : PayloadKind
  pub message : Text

pub record A2aServerTaskBinding : Type 0 where
  pub context_id : Text
  pub task_id : Text

pub data TaskState : Type 0 where
  input_required auth_required : TaskState

-- `A2ASendMessageResponse`
pub record InterruptedTask : Type 0 where
  pub id : Text
  pub context_id : Text
  pub state : TaskState
  pub message_id : Text
  pub message_context_id : Text
  pub message_task_id : Text
  pub text : Text
  pub timestamp : IsoTimestamp
  pub continuation_id : ContinuationId
  pub expires_at : IsoTimestamp

pub record A2aSendMessageRequest : Type 0 where
  pub task_id : Text
  pub context_id : Text
  pub message_id : Text
  pub data_part : Json
  pub continuation_id : ContinuationId

pub data AuthorizationControlAction : Type 0 where
  reject retry : AuthorizationControlAction

unfoldable both : Option PayloadKind → Option Text → Option ContinuationPayload
both (some kind) (some message) = some (record { kind = kind; message = message })
both _ _ = none

-- `ContinuationPayloadSchema.safeParse`; other fields pass.
unfoldable pub parse_payload : Json → Option ContinuationPayload
unfolding payload_kind payload_message both
parse_payload (obj es) =
    both (payload_kind (field (codes "kind") es))
      (payload_message (as_text (field (codes "message") es)))
parse_payload _ = none

abbrev pub task_state : PayloadKind → TaskState
task_state input = input_required
task_state authorization = auth_required

abbrev pub action_text : AuthorizationControlAction → Text
action_text reject = codes "reject"
action_text retry = codes "retry"

module _ (is_offset_datetime : Text → Bool) where
  abbrev pub is_projectable : ContinuationEnvelope → Bool
  is_projectable continuation =
      is_opaque_id continuation.continuation_id
      && (is_offset_datetime continuation.created_at && is_offset_datetime continuation.expires_at)

  pending_fields : ContinuationEnvelope → Lifecycle → Result ProtocolAdapterErrorCode (Unit {0})
  pending_fields continuation (Lifecycle.pending hash) =
      require (is_projectable continuation) invalid_protocol_message
  pending_fields continuation lifecycle = err invalid_protocol_transition

  unfoldable pub require_pending : ContinuationEnvelope → Result ProtocolAdapterErrorCode (Unit {0})
  unfolding pending_fields
  require_pending continuation = pending_fields continuation continuation.lifecycle

unfoldable pub require_binding :
    ContinuationEnvelope → A2aServerTaskBinding → Result ProtocolAdapterErrorCode (Unit {0})
require_binding continuation binding = do
  require (is_opaque_id binding.context_id && is_opaque_id binding.task_id) invalid_protocol_binding
  require (text_eq binding.context_id continuation.correlation_id) invalid_protocol_binding

abbrev pub task_of :
    ContinuationEnvelope → A2aServerTaskBinding → ContinuationPayload → InterruptedTask
task_of continuation binding payload = record {
  id = binding.task_id;
  context_id = binding.context_id;
  state = task_state payload.kind;
  message_id = continuation.continuation_id;
  message_context_id = binding.context_id;
  message_task_id = binding.task_id;
  text = payload.message;
  timestamp = continuation.created_at;
  continuation_id = continuation.continuation_id;
  expires_at = continuation.expires_at;
}

abbrev pub request_of :
    ContinuationEnvelope → A2aServerTaskBinding → Text → Json → A2aSendMessageRequest
request_of continuation binding message_id part = record {
  task_id = binding.task_id;
  context_id = binding.context_id;
  message_id = message_id;
  data_part = part;
  continuation_id = continuation.continuation_id;
}

-- The payload, or the error of the caller.
abbrev payload_or :
    ProtocolAdapterErrorCode
    → Option ContinuationPayload
    → Result ProtocolAdapterErrorCode ContinuationPayload
payload_or code none = err code
payload_or code (some payload) = ok payload

require_input : PayloadKind → Result ProtocolAdapterErrorCode (Unit {0})
require_input input = ok tt
require_input authorization = err invalid_protocol_transition

require_authorization : PayloadKind → Result ProtocolAdapterErrorCode (Unit {0})
require_authorization input = err invalid_protocol_transition
require_authorization authorization = ok tt

module _ (is_offset_datetime : Text → Bool) where
  unfoldable pub to_a2a_interrupted_task :
      ContinuationEnvelope → A2aServerTaskBinding → Result ProtocolAdapterErrorCode InterruptedTask
  to_a2a_interrupted_task continuation binding = do
    require_pending is_offset_datetime continuation
    payload ← payload_or invalid_protocol_message (parse_payload continuation.payload)
    require_binding continuation binding
    ok (task_of continuation binding payload)

  unfoldable pub to_a2a_input_message :
      ContinuationEnvelope
      → A2aServerTaskBinding
      → Json
      → Text
      → Result ProtocolAdapterErrorCode A2aSendMessageRequest
  unfolding require_input
  to_a2a_input_message continuation binding response message_id = do
    require_pending is_offset_datetime continuation
    payload ← payload_or invalid_protocol_message (parse_payload continuation.payload)
    require_input payload.kind
    require_binding continuation binding
    require (is_opaque_id message_id) invalid_protocol_message
    ok (request_of continuation binding message_id response)

  unfoldable pub to_a2a_authorization_control_message :
      ContinuationEnvelope
      → A2aServerTaskBinding
      → AuthorizationControlAction
      → Text
      → Result ProtocolAdapterErrorCode A2aSendMessageRequest
  unfolding require_authorization
  to_a2a_authorization_control_message continuation binding action message_id = do
    require_pending is_offset_datetime continuation
    payload ← payload_or invalid_protocol_transition (parse_payload continuation.payload)
    require_authorization payload.kind
    require (is_opaque_id message_id) invalid_protocol_message
    require_binding continuation binding
    ok (
        request_of continuation binding message_id
          (obj (entry (codes "action") (str (action_text action)) end)))

-- ===== src/Adapters/Examples.antt =====
-- The adapters on concrete continuations.
use pausemesh.Prelude.{◌≡◌, ◌≢◌, ◌⊎◌, refl, Bool, true, ok}
use pausemesh.Prelude.Text.{Text, codes, text_eq}
use pausemesh.Json.{str, obj, bool, end, entry}
use pausemesh.Json.Fields.{field, as_text}
use pausemesh.Domain.Types.{ContinuationEnvelope, Lifecycle}
use pausemesh.Adapters.Identifiers.{is_opaque_id, trim}
use pausemesh.Adapters.Payloads.{input, authorization}
use pausemesh.Adapters.A2a.{
  A2aServerTaskBinding, A2aSendMessageRequest, ContinuationPayload, auth_required, input_required,
  reject, retry, parse_payload, request_of, require_binding, require_pending, task_of,
  to_a2a_authorization_control_message, to_a2a_input_message, to_a2a_interrupted_task,
}
use pausemesh.Adapters.A2a.Projections.{
  Asks, IsBound, IsInterrupted, IsReply, input-excludes-control,
  to_a2a_authorization_control_message-IsBound, to_a2a_input_message-IsBound,
  to_a2a_interrupted_task-IsBound,
}

abbrev any_date : Text → Bool
any_date text = true

abbrev asked : ContinuationEnvelope
asked = record {
  schema_version = 1;
  continuation_id = codes "c";
  correlation_id = codes "x";
  version = 1;
  created_at = codes "t";
  expires_at = codes "u";
  payload = obj (entry (codes "message") (str (codes "m")) end);
  metadata = end;
  lifecycle = Lifecycle.pending (codes "h");
}

abbrev authorized : ContinuationEnvelope
authorized = record asked {
  payload = obj (
      entry (codes "kind") (str (codes "authorization"))
        (entry (codes "message") (str (codes "m")) end));
}

abbrev binding : A2aServerTaskBinding
binding = record { context_id = codes "x"; task_id = codes "t" }

abbrev asked_payload : ContinuationPayload
asked_payload = record { kind = input; message = codes "m" }

projected :
    to_a2a_interrupted_task any_date asked binding ≡ ok (task_of asked binding asked_payload)
unfolding to_a2a_interrupted_task require_pending require_binding parse_payload field as_text
    text_eq is_opaque_id trim
projected = refl

to_a2a_interrupted_task-IsBound_example :
    IsBound any_date asked binding
    × IsInterrupted asked binding (task_of asked binding asked_payload)
    × (Asks asked.payload authorization asked_payload.message × (input_required ≡ auth_required)
        ⊎ Asks asked.payload input asked_payload.message × (input_required ≡ input_required))
to_a2a_interrupted_task-IsBound_example =
    to_a2a_interrupted_task-IsBound any_date asked binding (task_of asked binding asked_payload)
      projected

sent :
    to_a2a_input_message any_date asked binding (bool true) (codes "m")
    ≡ ok (request_of asked binding (codes "m") (bool true))
unfolding to_a2a_input_message require_pending require_binding parse_payload field as_text text_eq
    is_opaque_id trim
sent = refl

to_a2a_input_message-IsBound_example :
    IsBound any_date asked binding
    × ((message : Text) × Asks asked.payload input message)
    × IsReply asked binding (codes "m") (request_of asked binding (codes "m") (bool true))
    × (bool true ≡ bool true)
to_a2a_input_message-IsBound_example =
    to_a2a_input_message-IsBound any_date asked binding (bool true) (codes "m")
      (request_of asked binding (codes "m") (bool true)) sent

abbrev retry_request : A2aSendMessageRequest
retry_request =
    request_of authorized binding (codes "m")
      (obj (entry (codes "action") (str (codes "retry")) end))

controlled :
    to_a2a_authorization_control_message any_date authorized binding retry (codes "m")
    ≡ ok retry_request
unfolding to_a2a_authorization_control_message require_pending require_binding parse_payload field
    as_text text_eq is_opaque_id trim
controlled = refl

to_a2a_authorization_control_message-IsBound_example :
    IsBound any_date authorized binding
    × ((message : Text) × Asks authorized.payload authorization message)
    × IsReply authorized binding (codes "m") retry_request
    × ((retry ≡ reject)
          × (retry_request.data_part ≡ obj (entry (codes "action") (str (codes "reject")) end))
        ⊎ (retry ≡ retry)
          × (retry_request.data_part ≡ obj (entry (codes "action") (str (codes "retry")) end)))
to_a2a_authorization_control_message-IsBound_example =
    to_a2a_authorization_control_message-IsBound any_date authorized binding retry (codes "m")
      retry_request controlled

input-excludes-control_example :
    to_a2a_authorization_control_message any_date asked binding retry (codes "m") ≢ ok retry_request
input-excludes-control_example =
    input-excludes-control any_date asked binding binding (bool true) retry (codes "m") (codes "m")
      (request_of asked binding (codes "m") (bool true)) retry_request sent

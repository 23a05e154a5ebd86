-- ===== src/Adapters/Agui/Issuing.antt =====
-- `issueAguiInterrupts` and `toAguiResumeEntry` of adapters/agui/interrupt.ts. The constant fields
-- of the event are left out.
use pausemesh.Prelude.{
  Bool, not, ◌&&◌, Option, none, some, List, [], ◌∷◌, map, Result, ok, err, ◌>>=◌, ◌>>◌,
}
use pausemesh.Prelude.Text.{Text, codes, text_eq, is_member}
use pausemesh.Json.{Json, JsonObject, obj}
use pausemesh.Json.Fields.{field, as_text}
use pausemesh.Domain.Types.{ContinuationId, ContinuationEnvelope, IsoTimestamp, Lifecycle}
use pausemesh.Adapters.Identifiers.{is_opaque_id}
use pausemesh.Adapters.Payloads.{PayloadKind, input, authorization, payload_kind, payload_message}
use pausemesh.Adapters.Protocol.{
  ProtocolAdapterErrorCode, invalid_protocol_binding, invalid_protocol_message,
  invalid_protocol_transition, require,
}
use pausemesh.Adapters.Agui.Receipts.{
  AguiReceiptInterrupt, ReceiptDescriptor, AguiInterruptReceipt, AguiResumeErrorCode, hash_json,
  cohort_id, receipt_json, parse_receipt,
}

pub record AguiRunBinding : Type 0 where
  pub run_id : Text
  pub thread_id : Text

pub record ContinuationPayload : Type 0 where
  pub kind : PayloadKind
  pub message : Text
  pub response_schema : Option JsonObject

pub data InterruptReason : Type 0 where
  input_required authorization_required : InterruptReason

pub record AguiInterrupt : Type 0 where
  pub id : Text
  pub reason : InterruptReason
  pub message : Text
  pub expires_at : IsoTimestamp
  pub response_schema : Option JsonObject
  pub continuation_id : ContinuationId

pub record AguiInterruptEvent : Type 0 where
  pub thread_id : Text
  pub run_id : Text
  pub interrupts : List AguiInterrupt

pub record AguiInterruptIssuance : Type 0 where
  pub event : AguiInterruptEvent
  pub receipt : AguiInterruptReceipt

-- `z.record(z.string(), z.unknown()).optional()`
schema_option : Option Json → Option (Option JsonObject)
schema_option none = some none
schema_option (some (obj es)) = some (some es)
schema_option (some _) = none

fields_of :
    Option PayloadKind → Option Text → Option (Option JsonObject) → Option ContinuationPayload
fields_of (some kind) (some message) (some schema) =
    some (record { kind = kind; message = message; response_schema = schema })
fields_of _ _ _ = none

-- `ContinuationPayloadSchema.safeParse`; other fields pass.
unfoldable pub parse_payload : Json → Option ContinuationPayload
unfolding payload_kind payload_message schema_option fields_of
parse_payload (obj es) =
    fields_of (payload_kind (field (codes "kind") es))
      (payload_message (as_text (field (codes "message") es)))
      (schema_option (field (codes "responseSchema") es))
parse_payload _ = none

-- `parseContinuationPayload`
abbrev pub payload_or {ℓ} :
    {E : Type ℓ} → E → Option ContinuationPayload → Result E ContinuationPayload
payload_or code none = err code
payload_or code (some payload) = ok payload

unfoldable pub require_pending : Lifecycle → Result ProtocolAdapterErrorCode (Unit {0})
require_pending (Lifecycle.pending hash) = ok tt
require_pending lifecycle = err invalid_protocol_transition

unfoldable pub parse_binding : AguiRunBinding → Result ProtocolAdapterErrorCode (Unit {0})
parse_binding binding =
    require (is_opaque_id binding.run_id && is_opaque_id binding.thread_id) invalid_protocol_binding

abbrev pub Projected : Type 0
Projected = ContinuationEnvelope × ContinuationPayload

-- The callback of `continuations.map`, with the set of the identifiers before.
unfoldable pub project :
    AguiRunBinding
    → List ContinuationId
    → List ContinuationEnvelope
    → Result ProtocolAdapterErrorCode (List Projected)
unfolding require_pending
project binding ids [] = ok []
project binding ids (c ∷ cs) = do
  require_pending c.lifecycle
  require (text_eq c.correlation_id binding.thread_id) invalid_protocol_binding
  require (is_opaque_id c.continuation_id && not (is_member c.continuation_id ids))
      invalid_protocol_binding
  payload ← payload_or invalid_protocol_message (parse_payload c.payload)
  rest ← project binding (c.continuation_id ∷ ids) cs
  ok ((c, payload) ∷ rest)

abbrev reason_of : PayloadKind → InterruptReason
reason_of input = input_required
reason_of authorization = authorization_required

abbrev pub interrupt_of : Projected → AguiInterrupt
interrupt_of (c, payload) = record {
  id = c.continuation_id;
  reason = reason_of payload.kind;
  message = payload.message;
  expires_at = c.expires_at;
  response_schema = payload.response_schema;
  continuation_id = c.continuation_id;
}

unfoldable pub some_of : List ContinuationEnvelope → Result ProtocolAdapterErrorCode (Unit {0})
some_of [] = err invalid_protocol_binding
some_of (c ∷ cs) = ok tt

unfoldable pub accepted :
    Result AguiResumeErrorCode AguiInterruptReceipt → Result ProtocolAdapterErrorCode (Unit {0})
accepted (ok receipt) = ok tt
accepted (err code) = err invalid_protocol_message

module _ (sha256 : Text → Text) where
  abbrev pub issued_of : ContinuationEnvelope → AguiReceiptInterrupt
  issued_of c = record {
    continuation_id = c.continuation_id;
    expires_at = c.expires_at;
    issued_version = c.version;
    payload_hash = hash_json sha256 c.payload;
  }

  abbrev pub descriptor_of : AguiRunBinding → List Projected → ReceiptDescriptor
  descriptor_of binding projected = record {
    thread_id = binding.thread_id;
    run_id = binding.run_id;
    interrupts = map (λ (p : Projected). issued_of p.0) projected;
  }

  abbrev pub receipt_of : ReceiptDescriptor → AguiInterruptReceipt
  receipt_of descriptor = record {
    cohort_id = cohort_id sha256 descriptor;
    descriptor = descriptor;
  }

module _ (is_offset_datetime : Text → Bool) (sha256 : Text → Text) where
  unfoldable pub issue_agui_interrupts :
      List ContinuationEnvelope
      → AguiRunBinding
      → Result ProtocolAdapterErrorCode AguiInterruptIssuance
  unfolding some_of accepted
  issue_agui_interrupts continuations binding = do
    parse_binding binding
    some_of continuations
    projected ← project binding [] continuations
    accepted (
        parse_receipt is_offset_datetime
          (receipt_json (receipt_of sha256 (descriptor_of sha256 binding projected))))
    ok (record {
      event = record {
        thread_id = binding.thread_id;
        run_id = binding.run_id;
        interrupts = map interrupt_of projected;
      };
      receipt = receipt_of sha256 (descriptor_of sha256 binding projected);
    })

pub data ResumeStatus : Type 0 where
  resolved cancelled : ResumeStatus

-- An entry of a resume batch. The payload is absent, or a JSON value.
pub record AguiResumeEntry : Type 0 where
  pub interrupt_id : Text
  pub status : ResumeStatus
  pub payload : Option Json

pub data Decision : Type 0 where
  resolved : (payload : Json) → Decision
  cancelled : Decision

abbrev entry_of : Text → Decision → AguiResumeEntry
entry_of id (Decision.resolved payload) = record {
  interrupt_id = id;
  status = ResumeStatus.resolved;
  payload = some payload;
}
entry_of id Decision.cancelled = record {
  interrupt_id = id;
  status = ResumeStatus.cancelled;
  payload = none;
}

unfoldable pub to_agui_resume_entry :
    Text → Decision → Result ProtocolAdapterErrorCode AguiResumeEntry
to_agui_resume_entry id decision = do
  require (is_opaque_id id) invalid_protocol_message
  ok (entry_of id decision)

-- ===== src/Adapters/Mcp/Results.antt =====
-- `parseMcpElicitResult` of adapters/mcp/elicitation.ts, with the checks of a request and its
-- receipt, and `toMcpElicitationCompleteNotification`.
use pausemesh.Prelude.{
  ℕ, Bool, true, false, ◌&&◌, Option, none, some, List, [], ◌∷◌, map, Result, ok, err, ◌>>=◌, ◌>>◌,
  length, all, ◌==◌, if◌then◌else◌,
}
use pausemesh.Prelude.Text.{Text, codes, text_eq, is_member, set_size}
use pausemesh.Json.{Json, null, bool, num, str, arr, obj, Entries, end, entry}
use pausemesh.Json.Fields.{field, as_text}
use pausemesh.Json.Canonical.{canonical_json}
use pausemesh.Domain.Types.{ContinuationEnvelope, Lifecycle}
use pausemesh.Adapters.Protocol.{
  ProtocolAdapterErrorCode, invalid_protocol_binding, invalid_protocol_message,
  invalid_protocol_transition, require,
}
use pausemesh.Adapters.Mcp.Schemas.{
  McpPrimitiveSchemaDefinition, McpRequestedSchema, Parse, boolean, is_within, number, one_of,
  some_of, string, text_items,
}
use pausemesh.Adapters.Mcp.Definitions.{
  Formats, is_number_value, is_string_value, parse_requested_schema,
}
use pausemesh.Adapters.Mcp.Requests.{
  ContinuationPayload, McpElicitRequest, McpElicitationReceipt, McpPauseMeshMetadata, Params,
  is_receipt, is_request, mode_eq, mode_of, parse_boundary, parse_payload, request_hash,
  request_id_eq, require_pending,
}
use pausemesh.Adapters.Mcp.Issuing.{Environment, schema_or}

pub data Action : Type 0 where
  accept decline cancel : Action

pub record McpElicitResult : Type 0 where
  pub action : Action
  pub content : Option Entries

pub data McpElicitationOutcome : Type 0 where
  accepted : (content : Entries) → McpElicitationOutcome
  refused : (action : Action) → McpElicitationOutcome
  url_consent : (action : Action) (elicitation_id : Text) → McpElicitationOutcome

pub record McpElicitationCompleteNotification : Type 0 where
  pub elicitation_id : Text
  pub meta : McpPauseMeshMetadata

is_ok {ℓ} : {A : Type ℓ} → Parse A → Bool
is_ok (ok a) = true
is_ok (err _) = false

-- A string, a number, a boolean or a list of strings.
is_content_value : Json → Bool
unfolding is_ok
is_content_value null = false
is_content_value (bool b) = true
is_content_value (num literal) = true
is_content_value (str s) = true
is_content_value (arr xs) = is_ok (text_items xs)
is_content_value (obj es) = false

all_values : Entries → Bool
unfolding is_content_value
all_values end = true
all_values (entry key json es) = is_content_value json && all_values es

action_of : Option Text → Parse Action
action_of none = err tt
action_of (some s) =
    if text_eq s (codes "accept")
    then ok accept
    else if text_eq s (codes "decline")
    then ok decline
    else if text_eq s (codes "cancel")
    then ok cancel
    else err tt

content_of : Option Json → Parse (Option Entries)
unfolding all_values
content_of none = ok none
content_of (some (obj es)) = do require (all_values es) tt; ok (some es)
content_of (some _) = err tt

is_record : Option Json → Bool
is_record none = true
is_record (some (obj es)) = true
is_record (some _) = false

-- `McpElicitResultSchema`; other fields pass.
unfoldable pub parse_result : Json → Parse McpElicitResult
unfolding action_of content_of is_record
parse_result (obj es) = do
  require (is_record (field (codes "_meta") es)) tt
  action ← action_of (as_text (field (codes "action") es))
  content ← content_of (field (codes "content") es)
  ok (record { action = action; content = content })
parse_result _ = err tt

unfoldable pub keys : Entries → List Text
keys end = []
keys (entry key json es) = key ∷ keys es

-- `schema.properties[key]`
unfoldable pub definition_of :
    Text → List (Text × McpPrimitiveSchemaDefinition) → Option McpPrimitiveSchemaDefinition
definition_of key [] = none
definition_of key ((k, d) ∷ rest) =
    let other = definition_of key rest in if text_eq key k then some d else other

unfoldable pub no_content : Option Entries → Result ProtocolAdapterErrorCode (Unit {0})
no_content none = ok tt
no_content (some content) = err invalid_protocol_message

unfoldable pub some_content : Option Entries → Result ProtocolAdapterErrorCode Entries
some_content none = err invalid_protocol_message
some_content (some content) = ok content

module _ (formats : Formats) where
  are_selections : List Text → (ℕ → Bool) → Parse (List Text) → Bool
  are_selections allowed counted (err _) = false
  are_selections allowed counted (ok texts) =
      (set_size texts == length texts)
      && (counted (length texts) && all (λ t. is_member t allowed) texts)

  -- `fieldValueIsValid`
  unfoldable pub field_value_is_valid : Json → McpPrimitiveSchemaDefinition → Bool
  unfolding are_selections
  field_value_is_valid (bool b) boolean = true
  field_value_is_valid (num literal) (number integer minimum maximum) =
      is_number_value integer minimum maximum literal
  field_value_is_valid (arr xs) (some_of allowed items) =
      are_selections allowed (is_within items) (text_items xs)
  field_value_is_valid (str s) (one_of allowed) = is_member s allowed
  field_value_is_valid (str s) (string lengths format) = is_string_value formats lengths format s
  field_value_is_valid _ _ = false

  fits : Json → Option McpPrimitiveSchemaDefinition → Bool
  fits json none = false
  fits json (some definition) = field_value_is_valid json definition

  unfoldable pub all_fit : List (Text × McpPrimitiveSchemaDefinition) → Entries → Bool
  unfolding fits
  all_fit properties end = true
  all_fit properties (entry key json es) =
      fits json (definition_of key properties) && all_fit properties es

  unfoldable pub validated_form_content :
      Entries → McpRequestedSchema → Result ProtocolAdapterErrorCode Entries
  validated_form_content content schema = do
    require
        (all
          (λ k.
            is_member k (map (λ (p : Text × McpPrimitiveSchemaDefinition). p.0) schema.properties))
          (keys content))
        invalid_protocol_message
    require (all (λ k. is_member k (keys content)) schema.required) invalid_protocol_message
    require (all_fit schema.properties content) invalid_protocol_message
    ok content

  -- The result of a form, by its action.
  unfoldable pub form_outcome :
      Json → Action → Option Entries → Result ProtocolAdapterErrorCode McpElicitationOutcome
  unfolding no_content some_content
  form_outcome requested accept content = do
    given ← some_content content
    schema ← parse_boundary invalid_protocol_binding (parse_requested_schema formats requested)
    valid ← validated_form_content given schema
    ok (accepted valid)
  form_outcome requested action content = do no_content content; ok (refused action)

  unfoldable pub outcome_of :
      Params → McpElicitResult → Result ProtocolAdapterErrorCode McpElicitationOutcome
  unfolding no_content
  outcome_of (Params.url id target) result = do
    no_content result.content
    ok (url_consent result.action id)
  outcome_of (Params.form requested) result = form_outcome requested result.action result.content

-- The payload has the mode of the request, its message and its schema.
unfoldable pub payload_matches : ContinuationPayload → McpElicitRequest → Params → Bool
payload_matches (ContinuationPayload.authorization message) request (Params.url id target) =
    text_eq request.message message
payload_matches (ContinuationPayload.input message schema) request (Params.form requested) =
    text_eq request.message message
    && text_eq (canonical_json requested) (canonical_json (schema_or schema))
payload_matches _ _ _ = false

abbrev pub metadata_matches : ContinuationEnvelope → McpElicitRequest → Bool
metadata_matches c request =
    text_eq request.meta.continuation_id c.continuation_id
    && (text_eq request.meta.correlation_id c.correlation_id
        && (text_eq request.meta.expires_at c.expires_at
            && (request_id_eq request.meta.request_id request.id && (c.schema_version == 1))))

unfoldable pub require_resumed : Lifecycle → Result ProtocolAdapterErrorCode (Unit {0})
require_resumed (Lifecycle.resumed at key payload) = ok tt
require_resumed lifecycle = err invalid_protocol_transition

-- The identifier of a request for consent.
unfoldable pub consent_id : Params → Result ProtocolAdapterErrorCode Text
consent_id (Params.url id target) = ok id
consent_id (Params.form requested) = err invalid_protocol_binding

module _ (env : Environment) where
  unfoldable pub require_request_binding :
      ContinuationEnvelope → McpElicitRequest → Result ProtocolAdapterErrorCode (Unit {0})
  require_request_binding c request = do
    payload ← parse_boundary invalid_protocol_binding (parse_payload env.formats c.payload)
    require (metadata_matches c request && payload_matches payload request request.params)
        invalid_protocol_binding

  abbrev pub receipt_matches :
      ContinuationEnvelope → McpElicitRequest → McpElicitationReceipt → Bool
  receipt_matches c request receipt =
      text_eq receipt.continuation_id c.continuation_id
      && (text_eq receipt.correlation_id c.correlation_id
          && (mode_eq receipt.mode (mode_of request.params)
              && (request_id_eq receipt.request_id request.id
                  && text_eq receipt.request_hash (request_hash env.sha256 request))))

  -- `none` is a value that has not the shape of a receipt.
  unfoldable pub require_issuance_receipt :
      ContinuationEnvelope
      → McpElicitRequest
      → Option McpElicitationReceipt
      → Result ProtocolAdapterErrorCode (Unit {0})
  require_issuance_receipt c request none = err invalid_protocol_binding
  require_issuance_receipt c request (some receipt) =
      require (is_receipt receipt && receipt_matches c request receipt) invalid_protocol_binding

  unfoldable pub parse_mcp_elicit_result :
      ContinuationEnvelope
      → McpElicitRequest
      → Option McpElicitationReceipt
      → Json
      → Result ProtocolAdapterErrorCode McpElicitationOutcome
  parse_mcp_elicit_result c request receipt raw_result = do
    require_pending c.lifecycle
    require (is_request env.formats request) invalid_protocol_binding
    require_request_binding c request
    require_issuance_receipt c request receipt
    result ← parse_boundary invalid_protocol_message (parse_result raw_result)
    outcome_of env.formats request.params result

  unfoldable pub to_mcp_elicitation_complete_notification :
      ContinuationEnvelope
      → McpElicitRequest
      → Option McpElicitationReceipt
      → Result ProtocolAdapterErrorCode McpElicitationCompleteNotification
  to_mcp_elicitation_complete_notification c request receipt = do
    require_resumed c.lifecycle
    id ← consent_id request.params
    require (is_request env.formats request) invalid_protocol_binding
    require_request_binding c request
    require_issuance_receipt c request receipt
    ok (record { elicitation_id = id; meta = request.meta })

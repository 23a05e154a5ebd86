-- ===== src/Adapters/Mcp/Issuing.antt =====
-- `toMcpElicitRequest` and `issueMcpElicitation` of adapters/mcp/elicitation.ts.
use pausemesh.Prelude.{
  Bool, true, false, ◌&&◌, ◌||◌, Option, none, some, Result, ok, err, ◌>>=◌, ◌>>◌,
}
use pausemesh.Prelude.Text.{Text, codes}
use pausemesh.Json.{Json, str, obj, Entries, end, entry}
use pausemesh.Json.Fields.{field}
use pausemesh.Domain.Types.{ContinuationEnvelope}
use pausemesh.Adapters.Protocol.{
  ProtocolAdapterErrorCode, invalid_protocol_binding, invalid_protocol_message,
  unsupported_protocol_capability, require,
}
use pausemesh.Adapters.Mcp.Urls.{McpUrlBinding, McpProjectionPolicy, Url, validate_url_binding}
use pausemesh.Adapters.Mcp.Schemas.{Parse}
use pausemesh.Adapters.Mcp.Definitions.{Formats}
use pausemesh.Adapters.Mcp.Requests.{
  ContinuationPayload, McpElicitRequest, McpElicitationIssuance, McpElicitationReceipt,
  McpPauseMeshMetadata, McpProjectionContext, McpRequestId, Mode, Params, every, is_preserved,
  is_receipt, is_request, is_request_id, mode_of, parse_boundary, parse_payload, request_hash,
  require_pending,
}

unfoldable pub is_object : Option Json → Bool
is_object none = true
is_object (some (obj es)) = true
is_object (some _) = false

-- The capability of elicitation, if it is declared.
unfoldable pub capability_of : Option Json → Parse (Option Entries)
unfolding is_object
capability_of none = ok none
capability_of (some (obj es)) = do
  require (is_object (field (codes "form") es) && is_object (field (codes "url") es)) tt
  ok (some es)
capability_of (some _) = err tt

-- `McpClientCapabilitiesSchema`
unfoldable pub parse_capabilities : Json → Parse (Option Entries)
unfolding capability_of
parse_capabilities (obj es) = capability_of (field (codes "elicitation") es)
parse_capabilities _ = err tt

unfoldable pub is_declared : Option Json → Bool
is_declared none = false
is_declared (some json) = true

unfoldable pub is_empty : Entries → Bool
is_empty end = true
is_empty (entry key json es) = false

-- An empty declaration stands for forms.
unfoldable pub supports : Mode → Entries → Bool
unfolding is_declared is_empty
supports Mode.form es = is_declared (field (codes "form") es) || is_empty es
supports Mode.url es = is_declared (field (codes "url") es)

unfoldable pub mode_supported : Mode → Option Entries → Result ProtocolAdapterErrorCode (Unit {0})
mode_supported mode none = err unsupported_protocol_capability
mode_supported mode (some es) = require (supports mode es) unsupported_protocol_capability

unfoldable pub require_mode_capability : Json → Mode → Result ProtocolAdapterErrorCode (Unit {0})
unfolding mode_supported
require_mode_capability capabilities mode = do
  elicitation ← parse_boundary invalid_protocol_binding (parse_capabilities capabilities)
  mode_supported mode elicitation

is_binding : McpUrlBinding → Bool
is_binding binding = is_preserved binding.elicitation_id && is_preserved binding.url

-- `McpProjectionContextSchema`, on a context of its type
unfoldable pub check_context : McpProjectionContext → Parse (Unit {0})
unfolding is_binding
check_context context = do
  elicitation ← parse_capabilities context.client_capabilities
  require
      (every is_preserved context.related_task
        && (is_request_id context.request_id && every is_binding context.url_binding))
      tt

unfoldable pub projection_metadata :
    ContinuationEnvelope → McpRequestId → Option Text → McpPauseMeshMetadata
projection_metadata continuation request_id related_task = record {
  continuation_id = continuation.continuation_id;
  correlation_id = continuation.correlation_id;
  expires_at = continuation.expires_at;
  request_id = request_id;
  task_id = related_task;
}

-- `{ type: "object", properties: {} }`
abbrev pub empty_schema : Json
empty_schema =
    obj (entry (codes "type") (str (codes "object")) (entry (codes "properties") (obj end) end))

abbrev pub schema_or : Option Json → Json
schema_or none = empty_schema
schema_or (some schema) = schema

unfoldable pub bound_url : Option McpUrlBinding → Result ProtocolAdapterErrorCode McpUrlBinding
bound_url none = err invalid_protocol_binding
bound_url (some binding) = ok binding

unfoldable pub no_url : Option McpUrlBinding → Result ProtocolAdapterErrorCode (Unit {0})
no_url none = ok tt
no_url (some binding) = err invalid_protocol_binding

-- What the projections take from outside: the parse of URLs, the tests of formats, the digest.
pub record Environment : Type 0 where
  pub parse_url : Text → Option Url
  pub formats : Formats
  pub sha256 : Text → Text

module _ (env : Environment) where
  -- `parseBoundary` of the request's schema
  unfoldable pub checked_request :
      McpElicitRequest → Result ProtocolAdapterErrorCode McpElicitRequest
  checked_request request = do
    require (is_request env.formats request) invalid_protocol_message
    ok request

  abbrev pub request_of :
      ContinuationEnvelope → McpProjectionContext → Text → Params → McpElicitRequest
  request_of continuation context message params = record {
    id = context.request_id;
    message = message;
    params = params;
    meta = projection_metadata continuation context.request_id context.related_task;
  }

  -- The two kinds of payload.
  unfoldable pub project_payload :
      ContinuationEnvelope
      → McpProjectionContext
      → McpProjectionPolicy
      → ContinuationPayload
      → Result ProtocolAdapterErrorCode McpElicitRequest
  project_payload continuation context policy (ContinuationPayload.authorization message) = do
    require_mode_capability context.client_capabilities Mode.url
    binding ← bound_url context.url_binding
    validate_url_binding env.parse_url binding policy
    checked_request
        (request_of continuation context message (Params.url binding.elicitation_id binding.url))
  project_payload continuation context policy (ContinuationPayload.input message schema) = do
    require_mode_capability context.client_capabilities Mode.form
    no_url context.url_binding
    checked_request (request_of continuation context message (Params.form (schema_or schema)))

  unfoldable pub to_mcp_elicit_request :
      ContinuationEnvelope
      → McpProjectionContext
      → McpProjectionPolicy
      → Result ProtocolAdapterErrorCode McpElicitRequest
  to_mcp_elicit_request continuation context policy = do
    require_pending continuation.lifecycle
    payload ←
        parse_boundary invalid_protocol_message (parse_payload env.formats continuation.payload)
    parse_boundary invalid_protocol_binding (check_context context)
    project_payload continuation context policy payload

  abbrev pub create_mcp_elicitation_receipt :
      ContinuationEnvelope → McpElicitRequest → McpElicitationReceipt
  create_mcp_elicitation_receipt continuation request = record {
    continuation_id = continuation.continuation_id;
    correlation_id = continuation.correlation_id;
    mode = mode_of request.params;
    request_id = request.id;
    request_hash = request_hash env.sha256 request;
  }

  unfoldable pub issue_mcp_elicitation :
      ContinuationEnvelope
      → McpProjectionContext
      → McpProjectionPolicy
      → Result ProtocolAdapterErrorCode McpElicitationIssuance
  issue_mcp_elicitation continuation context policy = do
    request ← to_mcp_elicit_request continuation context policy
    require (is_receipt (create_mcp_elicitation_receipt continuation request))
        invalid_protocol_message
    ok (record { request = request; receipt = create_mcp_elicitation_receipt continuation request })

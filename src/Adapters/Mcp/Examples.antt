-- ===== src/Adapters/Mcp/Examples.antt =====
-- The MCP adapter on concrete values.
use pausemesh.Prelude.{◌≡◌, refl, Bool, true, false, none, some, [], ◌∷◌, ◌++◌, ok, ◌>>=◌, ◌↔◌}
use pausemesh.Prelude.Text.{Text, codes, text_eq, is_member, set_size}
use pausemesh.Json.{Json, str, obj, null, arr, cons, nil, end, entry}
use pausemesh.Json.Fields.{field, as_text, only_keys}
use pausemesh.Storage.Numerals.{read_nat}
use pausemesh.Domain.Types.{ContinuationEnvelope, ContinuationStatus, Lifecycle, status}
use pausemesh.Domain.Events.{ContinuationEvent, EventBody}
use pausemesh.Domain.Reducer.Steps.{Transition, resumes}
use pausemesh.Adapters.Identifiers.{trim, drop_spaces, is_hex_digest}
use pausemesh.Adapters.Payloads.{payload_message}
use pausemesh.Adapters.Protocol.{invalid_protocol_message}
use pausemesh.Adapters.Mcp.Urls.{
  McpProjectionPolicy, McpUrlBinding, Url, any, attest, attested, ends_with, includes,
  is_loopback_address, is_loopback_hostname, is_octet, is_sensitive_query_parameter,
  letters_and_digits, parsed_or, split, to_lower, validate_url_binding,
}
use pausemesh.Adapters.Mcp.Schemas.{
  bounds_of, default_in, distinct, optional, ordered, present, some_options, some_texts, text_item,
  text_items, text_list, typed, unicode_length, unless, is_within,
}
use pausemesh.Adapters.Mcp.Definitions.{
  is_string_value, legacy_enum, multi_enum, or_else, parse_requested_schema, primitive_definition,
  properties_of, string_definition, titled_enum,
}
use pausemesh.Adapters.Mcp.Requests.{
  McpElicitRequest, McpElicitationIssuance, McpProjectionContext, McpRequestId, Params, every,
  is_preserved, is_metadata, is_receipt, is_request, is_request_id, is_safe_integer, parse_boundary,
  parse_payload, request_hash, require_pending,
}
use pausemesh.Adapters.Mcp.Issuing.{
  Environment, bound_url, check_context, checked_request, create_mcp_elicitation_receipt,
  issue_mcp_elicitation, no_url, parse_capabilities, project_payload, projection_metadata,
  request_of, require_mode_capability, supports, to_mcp_elicit_request,
}
use pausemesh.Adapters.Mcp.Results.{
  McpElicitResult, accepted, all_fit, definition_of, field_value_is_valid, form_outcome, keys,
  outcome_of, parse_mcp_elicit_result, parse_result, require_issuance_receipt,
  require_request_binding, some_content, to_mcp_elicitation_complete_notification,
  validated_form_content,
}
use pausemesh.Adapters.Mcp.Trust.{IsTrusted, validate_url_binding_iff}
use pausemesh.Adapters.Mcp.Shown.{IsShown, to_mcp_elicit_request-IsShown}
use pausemesh.Adapters.Mcp.Bound.{issue_mcp_elicitation_complete, issue_mcp_elicitation-parse}
use pausemesh.Adapters.Mcp.Outcomes.{IsOutcome, parse_mcp_elicit_result-IsOutcome}

loopbacks :
    (is_loopback_hostname (codes "LocalHost") ≡ true)
    × (is_loopback_hostname (codes "api.localhost") ≡ true)
    × (is_loopback_hostname (codes "127.0.0.1") ≡ true)
    × (is_loopback_hostname (codes "127.0.0.256") ≡ false)
    × (is_loopback_hostname (codes "127.0.0.1.example") ≡ false)
unfolding is_loopback_hostname to_lower text_eq ends_with is_loopback_address split is_octet
    read_nat
loopbacks = (refl, refl, refl, refl, refl)

sensitive :
    (is_sensitive_query_parameter (codes "Access-Token") ≡ true)
    × (is_sensitive_query_parameter (codes "state") ≡ false)
unfolding is_sensitive_query_parameter text_eq to_lower includes letters_and_digits any
sensitive = (refl, refl)

abbrev any_text : Text → Bool
any_text text = true

abbrev page : Url
page = record {
  protocol = codes "http:";
  username = [];
  password = [];
  hash = [];
  hostname = codes "localhost";
  search_keys = codes "state" ∷ [];
}

abbrev zeros : Text
zeros = codes "0000000000000000"

abbrev env : Environment
env = record {
  parse_url = λ text. some page;
  formats = record {
    is_email = any_text;
    can_parse_url = any_text;
    is_iso_date = any_text;
    is_offset_datetime = any_text;
  };
  sha256 = λ text. zeros ++ zeros ++ zeros ++ zeros;
}

abbrev policy : McpProjectionPolicy
policy = record {
  allow_insecure_loopback_http = some true;
  validate_authorization_url = some (λ url. attested);
}

abbrev binding : McpUrlBinding
binding = record { elicitation_id = codes "l"; url = codes "http://localhost/?state=s" }

validate_url_binding_iff_example :
    (validate_url_binding env.parse_url binding policy ≡ ok tt)
    ↔ ((url : Url) × (env.parse_url binding.url ≡ some url) × IsTrusted policy url)
validate_url_binding_iff_example = validate_url_binding_iff env.parse_url policy binding

abbrev form_schema : Json
form_schema = obj (
    entry (codes "type") (str (codes "object")) (
      entry (codes "properties")
        (obj (entry (codes "a") (obj (entry (codes "type") (str (codes "string")) end)) end))
        (entry (codes "required") (arr (cons (str (codes "a")) nil)) end)))

abbrev asked : ContinuationEnvelope
asked = record {
  schema_version = 1;
  continuation_id = codes "c";
  correlation_id = codes "x";
  version = 1;
  created_at = codes "t";
  expires_at = codes "u";
  payload =
      obj (
        entry (codes "message") (str (codes "m")) (entry (codes "responseSchema") form_schema end));
  metadata = end;
  lifecycle = Lifecycle.pending (codes "h");
}

abbrev authorized : ContinuationEnvelope
authorized = record asked {
  payload = obj (
      entry (codes "kind") (str (codes "authorization"))
        (entry (codes "message") (str (codes "m")) end));
}

abbrev form_context : McpProjectionContext
form_context = record {
  client_capabilities = obj (entry (codes "elicitation") (obj end) end);
  related_task = none;
  request_id = McpRequestId.number (codes "7");
  url_binding = none;
}

abbrev url_context : McpProjectionContext
url_context = record {
  client_capabilities =
      obj (entry (codes "elicitation") (obj (entry (codes "url") (obj end) end)) end);
  related_task = none;
  request_id = McpRequestId.number (codes "7");
  url_binding = some binding;
}

abbrev form_request : McpElicitRequest
form_request = request_of env asked form_context (codes "m") (Params.form form_schema)

abbrev url_request : McpElicitRequest
url_request = request_of env authorized url_context (codes "m") (Params.url (codes "l") binding.url)

abbrev issuance_of : ContinuationEnvelope → McpElicitRequest → McpElicitationIssuance
issuance_of c request = record {
  request = request;
  receipt = create_mcp_elicitation_receipt env c request;
}

form_requested : to_mcp_elicit_request env asked form_context policy ≡ ok form_request
unfolding to_mcp_elicit_request require_pending parse_boundary parse_payload payload_message field
    as_text text_eq parse_requested_schema present optional text_item text_list text_items distinct
    set_size is_member only_keys properties_of primitive_definition or_else legacy_enum titled_enum
    multi_enum string_definition typed some_texts some_options bounds_of ordered unless default_in
    check_context parse_capabilities every is_preserved trim is_request_id is_safe_integer read_nat
    project_payload require_mode_capability supports no_url checked_request is_request is_metadata
    projection_metadata drop_spaces
form_requested = refl

url_requested : to_mcp_elicit_request env authorized url_context policy ≡ ok url_request
unfolding to_mcp_elicit_request require_pending parse_boundary parse_payload payload_message field
    as_text text_eq check_context parse_capabilities every is_preserved trim is_request_id
    is_safe_integer read_nat project_payload require_mode_capability supports bound_url
    validate_url_binding parsed_or any is_sensitive_query_parameter to_lower letters_and_digits
    includes is_loopback_hostname attest checked_request is_request is_metadata projection_metadata
url_requested = refl

to_mcp_elicit_request-IsShown_example : IsShown env authorized url_context policy url_request
to_mcp_elicit_request-IsShown_example =
    to_mcp_elicit_request-IsShown env authorized url_context policy url_request url_requested

form_issued :
    issue_mcp_elicitation env asked form_context policy ≡ ok (issuance_of asked form_request)
unfolding issue_mcp_elicitation is_receipt is_preserved trim is_request_id is_safe_integer read_nat
    is_hex_digest request_hash text_eq
form_issued = rw form_requested refl

url_issued :
    issue_mcp_elicitation env authorized url_context policy
    ≡ ok (issuance_of authorized url_request)
unfolding issue_mcp_elicitation is_receipt is_preserved trim is_request_id is_safe_integer read_nat
    is_hex_digest request_hash text_eq
url_issued = rw url_requested refl

abbrev given : Json
given = obj (
    entry (codes "action") (str (codes "accept"))
      (entry (codes "content") (obj (entry (codes "a") (str (codes "v")) end)) end))

issue_mcp_elicitation-parse_example :
    parse_mcp_elicit_result env asked form_request
      (some (create_mcp_elicitation_receipt env asked form_request))
      given
    ≡ (parse_boundary invalid_protocol_message (parse_result given) >>= λ result.
        outcome_of env.formats form_request.params result)
issue_mcp_elicitation-parse_example =
    issue_mcp_elicitation-parse env asked form_context policy (issuance_of asked form_request) given
      refl form_issued

taken :
    parse_mcp_elicit_result env asked form_request
      (some (create_mcp_elicitation_receipt env asked form_request))
      given
    ≡ ok (accepted (entry (codes "a") (str (codes "v")) end))
unfolding parse_boundary parse_result field as_text text_eq outcome_of form_outcome some_content
    parse_requested_schema present optional text_item text_list text_items distinct set_size
    is_member only_keys properties_of primitive_definition or_else legacy_enum titled_enum
    multi_enum string_definition typed some_texts some_options bounds_of ordered unless default_in
    validated_form_content keys all_fit definition_of field_value_is_valid is_string_value is_within
    unicode_length
taken =
    issue_mcp_elicitation-parse env asked form_context policy (issuance_of asked form_request) given
      refl form_issued

parse_mcp_elicit_result-IsOutcome_example :
    (status asked ≡ ContinuationStatus.pending)
    × (require_request_binding env asked form_request ≡ ok tt)
    × (require_issuance_receipt env asked form_request
          (some (create_mcp_elicitation_receipt env asked form_request))
        ≡ ok tt)
    × ((result : McpElicitResult) × (parse_result given ≡ ok result)
        × IsOutcome env.formats form_request.params result.action result.content
            (accepted (entry (codes "a") (str (codes "v")) end)))
parse_mcp_elicit_result-IsOutcome_example =
    parse_mcp_elicit_result-IsOutcome env asked form_request
      (some (create_mcp_elicitation_receipt env asked form_request)) given
      (accepted (entry (codes "a") (str (codes "v")) end)) taken

abbrev resumed : ContinuationEnvelope
resumed = record authorized {
  version = 2;
  lifecycle = Lifecycle.resumed (codes "v") (codes "k") null;
}

abbrev event : ContinuationEvent
event = record {
  schema_version = 1;
  continuation_id = codes "c";
  version = 2;
  occurred_at = codes "v";
  body = EventBody.resumed (codes "k") null;
}

transition : Transition authorized event resumed
transition = record {
  schema = refl;
  identity = refl;
  fence = refl;
  was_pending = refl;
  version = refl;
  schema_after = refl;
  request = record {
    continuation_id = refl;
    correlation_id = refl;
    created_at = refl;
    expires_at = refl;
    payload = refl;
    metadata = refl;
  };
  closes = resumes;
}

issue_mcp_elicitation_complete_example :
    to_mcp_elicitation_complete_notification env resumed url_request
      (some (create_mcp_elicitation_receipt env authorized url_request))
    ≡ ok (record { elicitation_id = codes "l"; meta = url_request.meta })
issue_mcp_elicitation_complete_example =
    issue_mcp_elicitation_complete env authorized url_context policy
      (issuance_of authorized url_request) (codes "l") binding.url (codes "k") null event resumed
      url_issued refl transition refl

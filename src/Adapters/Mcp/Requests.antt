-- ===== src/Adapters/Mcp/Requests.antt =====
-- Requests and receipts of adapters/mcp/elicitation.ts. The version of the wire protocol and the
-- method are constants that stand in the JSON value of a request alone.
use pausemesh.Prelude.{
  ℕ, Bool, true, false, ◌&&◌, ◌||◌, Option, none, some, [], ◌∷◌, Result, ok, err, ◌>>=◌, ◌>>◌,
  length, leb, ltb, ◌==◌, if◌then◌else◌,
}
use pausemesh.Prelude.Text.{Text, codes, text_eq}
use pausemesh.Json.{Json, num, str, arr, obj, nil, cons, Entries, end, entry}
use pausemesh.Json.Fields.{field, as_text}
use pausemesh.Json.Canonical.{canonical_json}
use pausemesh.Domain.Types.{ContinuationId, IsoTimestamp, Lifecycle, max_safe_integer}
use pausemesh.Storage.Numerals.{decimal, read_nat}
use pausemesh.Adapters.Identifiers.{trim, is_hex_digest}
use pausemesh.Adapters.Payloads.{payload_message}
use pausemesh.Adapters.Protocol.{ProtocolAdapterErrorCode, invalid_protocol_transition, require}
use pausemesh.Adapters.Mcp.Urls.{McpUrlBinding}
use pausemesh.Adapters.Mcp.Schemas.{Parse}
use pausemesh.Adapters.Mcp.Definitions.{Formats, parse_requested_schema}

pub data McpRequestId : Type 0 where
  text : Text → McpRequestId
  number : (literal : Text) → McpRequestId

pub data Mode : Type 0 where
  form url : Mode

-- The schema of a form stands as its JSON value.
pub data ContinuationPayload : Type 0 where
  authorization : (message : Text) → ContinuationPayload
  input : (message : Text) (response_schema : Option Json) → ContinuationPayload

pub record McpPauseMeshMetadata : Type 0 where
  pub continuation_id : ContinuationId
  pub correlation_id : Text
  pub expires_at : IsoTimestamp
  pub request_id : McpRequestId
  -- the identifier of a related task
  pub task_id : Option Text

pub data Params : Type 0 where
  form : (requested_schema : Json) → Params
  url : (elicitation_id target : Text) → Params

pub record McpElicitRequest : Type 0 where
  pub id : McpRequestId
  pub message : Text
  pub params : Params
  pub meta : McpPauseMeshMetadata

pub record McpElicitationReceipt : Type 0 where
  pub continuation_id : ContinuationId
  pub correlation_id : Text
  pub mode : Mode
  pub request_id : McpRequestId
  pub request_hash : Text

pub record McpElicitationIssuance : Type 0 where
  pub request : McpElicitRequest
  pub receipt : McpElicitationReceipt

pub record McpProjectionContext : Type 0 where
  pub client_capabilities : Json
  -- the identifier of a related task
  pub related_task : Option Text
  pub request_id : McpRequestId
  pub url_binding : Option McpUrlBinding

-- `PreservedNonEmptyStringSchema`, which is `OpaqueProtocolIdSchema`.
unfoldable pub is_preserved : Text → Bool
is_preserved s = ltb 0 (length s) && text_eq s (trim s)

is_safe : Option ℕ → Bool
is_safe none = false
is_safe (some n) = leb n max_safe_integer

-- `z.number().int().safe()`
unfoldable pub is_safe_integer : Text → Bool
unfolding is_safe
is_safe_integer [] = false
is_safe_integer (c ∷ t) = is_safe (read_nat (if c == b'-' then t else c ∷ t))

-- `McpRequestIdSchema`
unfoldable pub is_request_id : McpRequestId → Bool
is_request_id (McpRequestId.text s) = is_preserved s
is_request_id (McpRequestId.number literal) = is_safe_integer literal

-- `left === right`
unfoldable pub request_id_eq : McpRequestId → McpRequestId → Bool
request_id_eq (McpRequestId.text s) (McpRequestId.text t) = text_eq s t
request_id_eq (McpRequestId.number s) (McpRequestId.number t) = text_eq s t
request_id_eq _ _ = false

unfoldable pub every {ℓ} : {A : Type ℓ} → (A → Bool) → Option A → Bool
every p none = true
every p (some a) = p a

abbrev pub mode_of : Params → Mode
mode_of (Params.form schema) = Mode.form
mode_of (Params.url id target) = Mode.url

unfoldable pub mode_eq : Mode → Mode → Bool
mode_eq Mode.form Mode.form = true
mode_eq Mode.url Mode.url = true
mode_eq _ _ = false

unfoldable pub require_pending : Lifecycle → Result ProtocolAdapterErrorCode (Unit {0})
require_pending (Lifecycle.pending hash) = ok tt
require_pending lifecycle = err invalid_protocol_transition

unfoldable pub is_kind : Text → Option Json → Bool
is_kind kind (some (str s)) = text_eq s kind
is_kind kind _ = false

unfoldable pub is_absent : Option Json → Bool
is_absent none = true
is_absent (some json) = false

-- What a check of a raw value gives, with the error of its caller: `parseBoundary`.
unfoldable pub parse_boundary {ℓ} :
    {A : Type ℓ} → ProtocolAdapterErrorCode → Parse A → Result ProtocolAdapterErrorCode A
parse_boundary code (ok a) = ok a
parse_boundary code (err _) = err code

-- `McpPauseMeshMetadataSchema`
unfoldable pub is_metadata : McpPauseMeshMetadata → Bool
is_metadata meta =
    is_preserved meta.continuation_id
    && (is_preserved meta.correlation_id
        && (is_preserved meta.expires_at
            && (is_request_id meta.request_id && every is_preserved meta.task_id)))

module _ (formats : Formats) where
  unfoldable pub parsed_schema : Option Json → Parse (Option Json)
  parsed_schema none = ok none
  parsed_schema (some json) = do schema ← parse_requested_schema formats json; ok (some json)

  unfoldable pub message_of : Option Text → Parse Text
  message_of none = err tt
  message_of (some message) = ok message

  -- An authorization, or an input.
  unfoldable pub fields_of : Bool → Text → Entries → Parse ContinuationPayload
  unfolding parsed_schema is_kind is_absent
  fields_of true message es = do
    require (is_absent (field (codes "responseSchema") es)) tt
    ok (ContinuationPayload.authorization message)
  fields_of false message es = do
    require
        (is_absent (field (codes "kind") es) || is_kind (codes "input") (field (codes "kind") es))
        tt
    schema ← parsed_schema (field (codes "responseSchema") es)
    ok (ContinuationPayload.input message schema)

  -- `ContinuationPayloadSchema`: an authorization has no schema.
  unfoldable pub parse_payload : Json → Parse ContinuationPayload
  unfolding message_of is_kind is_absent payload_message fields_of
  parse_payload (obj es) = do
    message ← message_of (payload_message (as_text (field (codes "message") es)))
    fields_of (is_kind (codes "authorization") (field (codes "kind") es)) message es
  parse_payload _ = err tt

  is_schema : Json → Bool
  is_schema json = elim (parse_requested_schema formats json) [ ok _ ↦ true | err _ ↦ false ]

  params_fit : Params → Bool
  unfolding is_schema
  params_fit (Params.form schema) = is_schema schema
  params_fit (Params.url id target) = is_preserved id && is_preserved target

  -- `McpFormElicitRequestSchema` and `McpUrlElicitRequestSchema`, on a request of its type
  unfoldable pub is_request : McpElicitRequest → Bool
  unfolding params_fit
  is_request request =
      is_request_id request.id
      && (ltb 0 (length request.message) && (params_fit request.params && is_metadata request.meta))

id_json : McpRequestId → Json
id_json (McpRequestId.text s) = str s
id_json (McpRequestId.number literal) = num literal

task_entries : Option Text → Entries
task_entries none = end
task_entries (some task) =
    entry (codes "io.modelcontextprotocol/related-task")
      (obj (entry (codes "taskId") (str task) end)) end

metadata_json : McpPauseMeshMetadata → Json
unfolding id_json task_entries
metadata_json meta = obj (
    entry (codes "io.pausemesh/continuation")
      (obj (
        entry (codes "continuationId") (str meta.continuation_id) (
          entry (codes "correlationId") (str meta.correlation_id) (
            entry (codes "expiresAt") (str meta.expires_at) (
              entry (codes "requestId") (id_json meta.request_id)
                (entry (codes "schemaVersion") (num (decimal 1)) end))))))
      (task_entries meta.task_id))

params_entries : Params → Entries → Entries
params_entries (Params.form schema) rest = entry (codes "requestedSchema") schema rest
params_entries (Params.url id target) rest =
    entry (codes "elicitationId") (str id) (entry (codes "url") (str target) rest)

mode_text : Mode → Text
mode_text Mode.form = codes "form"
mode_text Mode.url = codes "url"

-- The request as a JSON value.
unfoldable pub request_json : McpElicitRequest → Json
unfolding metadata_json params_entries mode_text id_json
request_json request = obj (
    entry (codes "jsonrpc") (str (codes "2.0")) (
      entry (codes "id") (id_json request.id) (
        entry (codes "method") (str (codes "elicitation/create")) (
          entry (codes "params")
            (obj (
              entry (codes "mode") (str (mode_text (mode_of request.params))) (
                entry (codes "message") (str request.message) (
                  params_entries request.params
                    (entry (codes "_meta") (metadata_json request.meta) end)))))
            end))))

unfoldable pub request_hash : (Text → Text) → McpElicitRequest → Text
request_hash sha256 request = sha256 (
    canonical_json
      (arr (cons (str (codes "mcp-elicitation-v1")) (cons (request_json request) nil))))

-- `McpElicitationReceiptSchema`, on a receipt of its type
unfoldable pub is_receipt : McpElicitationReceipt → Bool
is_receipt receipt =
    is_preserved receipt.continuation_id
    && (is_preserved receipt.correlation_id
        && (is_request_id receipt.request_id && is_hex_digest receipt.request_hash))

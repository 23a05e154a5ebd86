-- ===== src/Adapters/Http/Projections.antt =====
-- The projection route of adapters/http/app.ts, with its schemas.
use pausemesh.Prelude.{
  ℕ, Bool, true, false, Option, none, some, [], ◌∷◌, Result, ok, err, ◌>>=◌, ◌>>◌, ltb, length,
  if◌then◌else◌,
}
use pausemesh.Prelude.Text.{Text, codes, text_eq}
use pausemesh.Json.{Json, num, str, obj}
use pausemesh.Json.Fields.{field}
use pausemesh.Domain.Types.{ContinuationId, ContinuationEnvelope}
use pausemesh.Ports.Platform.{Platform}
use pausemesh.Service.Program
use pausemesh.Service.Program.{Program, attempt}
use pausemesh.Service.Methods.{inspect}
use pausemesh.Adapters.Identifiers.{is_opaque_id}
use pausemesh.Adapters.Protocol.{ProtocolAdapterErrorCode}
use pausemesh.Adapters.A2a.{A2aServerTaskBinding, to_a2a_interrupted_task}
use pausemesh.Adapters.Agui.Issuing.{AguiRunBinding, issue_agui_interrupts}
use pausemesh.Adapters.Mcp.Urls.{McpProjectionPolicy, McpUrlBinding}
use pausemesh.Adapters.Mcp.Requests.{McpProjectionContext, McpRequestId, is_safe_integer}
use pausemesh.Adapters.Mcp.Issuing.{Environment, issue_mcp_elicitation, parse_capabilities}
use pausemesh.Adapters.Http.Errors.{
  Projection, Response, Thrown, a2a_task, ag_ui_issuance, error, failure, invalid_request,
  error_response, mcp_issuance, projected, unsupported_protocol,
}
use pausemesh.Adapters.Http.Requests.{Request, read_bounded_json, read_text, required_field, strict}

pub data ProjectionProtocol : Type 0 where
  mcp a2a ag_ui : ProjectionProtocol

-- The cases of the switch.
unfoldable pub read_protocol : Text → Option ProjectionProtocol
read_protocol text =
    if text_eq text (codes "mcp")
    then some mcp
    else if text_eq text (codes "a2a")
    then some a2a
    else if text_eq text (codes "ag-ui")
    then some ag_ui
    else none

some_or : {A : Type 0} → Option A → Result Thrown A
some_or none = err invalid_request
some_or (some a) = ok a

opaque_id : Option Json → Result Thrown Text
unfolding required_field read_text some_or
opaque_id value = do json ← required_field value; some_or (read_text is_opaque_id json)

-- `A2AProjectionSchema`
unfoldable pub parse_a2a : Json → Result Thrown A2aServerTaskBinding
unfolding opaque_id strict
parse_a2a (obj es) = do
  context_id ← opaque_id (field (codes "contextId") es)
  task_id ← opaque_id (field (codes "taskId") es)
  strict (codes "contextId" ∷ codes "taskId" ∷ []) es
  ok (record { context_id = context_id; task_id = task_id })
parse_a2a _ = err invalid_request

-- `AguiProjectionSchema`
unfoldable pub parse_ag_ui : Json → Result Thrown AguiRunBinding
unfolding opaque_id strict
parse_ag_ui (obj es) = do
  run_id ← opaque_id (field (codes "runId") es)
  thread_id ← opaque_id (field (codes "threadId") es)
  strict (codes "runId" ∷ codes "threadId" ∷ []) es
  ok (record { run_id = run_id; thread_id = thread_id })
parse_ag_ui _ = err invalid_request

read_request_id : Json → Result Thrown McpRequestId
read_request_id (str s) = if is_opaque_id s then ok (McpRequestId.text s) else err invalid_request
read_request_id (num literal) =
    if is_safe_integer literal then ok (McpRequestId.number literal) else err invalid_request
read_request_id _ = err invalid_request

read_task : Option Json → Result Thrown (Option Text)
unfolding opaque_id strict
read_task none = ok none
read_task (some (obj es)) = do
  task ← opaque_id (field (codes "taskId") es)
  strict (codes "taskId" ∷ []) es
  ok (some task)
read_task (some _) = err invalid_request

read_url_binding : Option Json → Result Thrown (Option McpUrlBinding)
unfolding opaque_id required_field read_text some_or strict
read_url_binding none = ok none
read_url_binding (some (obj es)) = do
  elicitation_id ← opaque_id (field (codes "elicitationId") es)
  target ← required_field (field (codes "url") es)
  url ← some_or (read_text (λ t. ltb 0 (length t)) target)
  strict (codes "elicitationId" ∷ codes "url" ∷ []) es
  ok (some (record { elicitation_id = elicitation_id; url = url }))
read_url_binding (some _) = err invalid_request

capabilities : Json → Result Thrown Json
capabilities json = elim (parse_capabilities json) [ ok _ ↦ ok json | err _ ↦ err invalid_request ]

-- `McpProjectionSchema`
unfoldable pub parse_mcp : Json → Result Thrown McpProjectionContext
unfolding capabilities read_request_id read_task read_url_binding required_field strict
parse_mcp (obj es) = do
  declared ← required_field (field (codes "clientCapabilities") es)
  client_capabilities ← capabilities declared
  related_task ← read_task (field (codes "relatedTask") es)
  raw_id ← required_field (field (codes "requestId") es)
  request_id ← read_request_id raw_id
  url_binding ← read_url_binding (field (codes "urlBinding") es)
  strict
      (codes "clientCapabilities"
        ∷ codes "relatedTask"
        ∷ codes "requestId"
        ∷ codes "urlBinding"
        ∷ [])
      es
  ok (record {
    client_capabilities = client_capabilities;
    related_task = related_task;
    request_id = request_id;
    url_binding = url_binding;
  })
parse_mcp _ = err invalid_request

-- What an adapter throws.
unfoldable pub adapted {ℓ} : {A : Type ℓ} → Result ProtocolAdapterErrorCode A → Result Thrown A
adapted (ok a) = ok a
adapted (err code) = err (Thrown.protocol code)

-- The limit on the body as it is received comes before the handler.
unfoldable pub bounded : (oversized : Bool) → Program Response → Program Response
bounded true handler = Program.done (error_response Thrown.payload_too_large)
bounded false handler = handler

module _ (env : Environment) (policy : McpProjectionPolicy) (limit : ℕ) where
  unfoldable pub project :
      ProjectionProtocol → Request → ContinuationEnvelope → Result Thrown Projection
  project mcp request c = do
    json ← read_bounded_json limit request
    context ← parse_mcp json
    issuance ← adapted (issue_mcp_elicitation env c context policy)
    ok (mcp_issuance issuance)
  project a2a request c = do
    json ← read_bounded_json limit request
    binding ← parse_a2a json
    task ← adapted (to_a2a_interrupted_task env.formats.is_offset_datetime c binding)
    ok (a2a_task task)
  project ag_ui request c = do
    json ← read_bounded_json limit request
    binding ← parse_ag_ui json
    issuance ←
        adapted (issue_agui_interrupts env.formats.is_offset_datetime env.sha256 (c ∷ []) binding)
    ok (ag_ui_issuance issuance)

  unfoldable pub respond : Result Thrown Projection → Response
  respond (ok projection) = record { status = 200; body = projected projection }
  respond (err thrown) = error_response thrown

  unfoldable pub projection_response :
      Option ProjectionProtocol → Request → ContinuationEnvelope → Response
  unfolding respond
  projection_response none request c = record { status = 404; body = error unsupported_protocol }
  projection_response (some p) request c = respond (project p request c)

  unfoldable pub post_projection : Platform → Request → ContinuationId → Text → Program Response
  post_projection platform request id text = bounded request.oversized (
      attempt
        (Program.◌>>=◌ (inspect platform id)
          (λ c. Program.done (projection_response (read_protocol text) request c)))
        (λ e. Program.done (error_response (failure e))))

-- ===== src/Adapters/Http/Examples.antt =====
-- Requests handled on concrete inputs.
use pausemesh.Prelude.{ℕ, ◌≡◌, refl, Bool, true, false, none, some, List, [], ◌∷◌, ◌++◌, ok, arith}
use pausemesh.Prelude.Text.{Text, codes, text_eq}
use pausemesh.Json.{Json, Entries, obj, entry, end, str, num}
use pausemesh.Json.Fields.{field, as_text, only_keys}
use pausemesh.Json.Print.{stringify, byte_length}
use pausemesh.Json.Quote.{quote}
use pausemesh.Domain.Types.{ContinuationEnvelope, ContinuationStatus, Lifecycle, status}
use pausemesh.Domain.Reducer.{replay_continuation}
use pausemesh.Service.Inputs.{
  CreateContinuationInput, CreatedContinuation, ResumeContinuationInput, CancelContinuationInput,
}
use pausemesh.Service.Methods.{inspect}
use pausemesh.Service.Interleaving.{Input, Pool, run}
use pausemesh.Service.Resuming.{IsOutcome, IsAuthorized}
use pausemesh.Service.Cancelling.{IsCancellation}
use pausemesh.Service.Creating.{IsCreated}
use pausemesh.Service.Settled.{IsSince}
use pausemesh.Service.Samples.{
  test_platform, any_event, empty_store, empty_store-IsValid, token, at, whole_service,
}
use pausemesh.Storage.Numerals.{read_nat}
use pausemesh.Adapters.Identifiers.{is_opaque_id, trim, drop_spaces}
use pausemesh.Adapters.Payloads.{input}
use pausemesh.Adapters.A2a.{
  task_of, to_a2a_interrupted_task, require_pending, require_binding, parse_payload,
}
use pausemesh.Adapters.Mcp.Urls.{McpProjectionPolicy}
use pausemesh.Adapters.Mcp.Issuing.{Environment}
use pausemesh.Adapters.Http.Projections.{
  adapted, bounded, parse_a2a, post_projection, project, projection_response, read_protocol,
  respond,
}
use pausemesh.Adapters.Http.Projected.{IsView}
use pausemesh.Adapters.Http.Errors.{
  a2a_task, projected, created, continuation, Response, error_response,
}
use pausemesh.Adapters.Http.Requests.{
  Request, read_bounded_json, bearer, resume_token, idempotency_key, parse_create, parse_resume,
  parse_cancel,
}
use pausemesh.Adapters.Http.Handlers.{
  answer, call, resume_input, cancel_input, create_input, post_create, post_resume, post_cancel,
}
use pausemesh.Adapters.Http.Traffic.{
  HttpCall, posts_create, posts_resume, posts_cancel, posts_projection, handle, received, Responded,
  post_resume-IsDurable, post_cancel-IsDurable, post_create-IsRecorded, post_projection-IsView,
}

abbrev any_date : Text → Bool
any_date text = true

abbrev test_env : Environment
test_env = record {
  parse_url = λ text. none;
  formats = record {
    is_email = any_date;
    can_parse_url = any_date;
    is_iso_date = any_date;
    is_offset_datetime = any_date;
  };
  sha256 = λ text. text;
}

abbrev test_policy : McpProjectionPolicy
test_policy = record { allow_insecure_loopback_http = none; validate_authorization_url = none }

abbrev with_body : Json → Request
with_body json = record {
  oversized = false;
  content_length = none;
  body = some json;
  authorization = none;
  idempotency_key = none;
}

abbrev create_request : Request
create_request = with_body (
    obj (
      entry (codes "continuationId") (str (codes "c"))
        (entry (codes "payload") (Json.bool true) end)))

abbrev resume_request : Request
resume_request = record (with_body (obj (entry (codes "payload") (Json.bool false) end))) {
  authorization = some (codes "pauseMesh  " ++ token);
  idempotency_key = some (codes " k ");
}

abbrev cancel_request : Request
cancel_request = with_body (obj (entry (codes "expectedVersion") (num (codes "1")) end))

abbrev calls : List HttpCall
calls =
    posts_create create_request
    ∷ posts_resume resume_request (codes "c")
    ∷ posts_cancel cancel_request (codes "d")
    ∷ []

abbrev schedule : List (ℕ × Input)
schedule =
    (0, at 5)
    ∷ (0, at 5)
    ∷ (0, at 5)
    ∷ (0, at 5)
    ∷ (0, at 5)
    ∷ (1, at 6)
    ∷ (1, at 6)
    ∷ (1, at 7)
    ∷ (1, at 9)
    ∷ (1, at 9)
    ∷ []

abbrev final : Pool HttpCall Response
final =
    run any_event schedule
      (received test_env test_policy test_platform 1000 200 any_date any_event calls empty_store)

whole_http : ℕ
unfolding whole_service handle post_create post_resume post_cancel answer call resume_input
    cancel_input create_input read_bounded_json bearer resume_token idempotency_key parse_create
    parse_resume parse_cancel is_opaque_id trim drop_spaces field only_keys stringify byte_length
    quote text_eq read_nat error_response
whole_http = 0

abbrev resumed_state : ContinuationEnvelope
resumed_state = record {
  schema_version = 1;
  continuation_id = codes "c";
  correlation_id = codes "fresh";
  version = 2;
  created_at = 5 ∷ [];
  expires_at = 1005 ∷ [];
  payload = Json.bool true;
  metadata = Entries.end;
  lifecycle = Lifecycle.resumed (7 ∷ []) (codes "k") (Json.bool false);
}

abbrev resume_response : Response
resume_response = record { status = 200; body = continuation resumed_state }

resume-Responded :
    Responded test_env test_policy test_platform 1000 200 any_date any_event final 1
      (posts_resume resume_request (codes "c"))
      resume_response
unfolding whole_http
resume-Responded = refl

post_resume-IsDurable_example :
    (input : ResumeContinuationInput) × (resume_input 200 resume_request (codes "c") ≡ ok input)
    × ((s : ContinuationEnvelope) × (resume_response
          ≡ record { status = 200; body = continuation s })
        × (replay_continuation (final.streams input.continuation_id) ≡ ok (some s))
        × IsOutcome input s
        × IsAuthorized test_platform input.continuation_id input.resume_token final.streams)
post_resume-IsDurable_example =
    post_resume-IsDurable test_env test_policy test_platform 1000 200 any_date any_event calls
      schedule empty_store empty_store-IsValid 1 resume_request (codes "c") resume_response
      resume-Responded (omega arith)

abbrev pending_state : ContinuationEnvelope
pending_state = record resumed_state { version = 1; lifecycle = Lifecycle.pending token }

abbrev create_response : Response
create_response = record {
  status = 201;
  body = created (record { continuation = pending_state; resume_token = token });
}

create-Responded :
    Responded test_env test_policy test_platform 1000 200 any_date any_event final 0
      (posts_create create_request)
      create_response
unfolding whole_http
create-Responded = refl

post_create-IsRecorded_example :
    (input : CreateContinuationInput) × (create_input 200 test_platform any_date create_request
      ≡ ok input)
    × ((c : CreatedContinuation) × (create_response ≡ record { status = 201; body = created c })
        × IsCreated test_platform input c.continuation
        × ((s : ContinuationEnvelope) × (replay_continuation
                (final.streams c.continuation.continuation_id)
              ≡ ok (some s))
            × IsSince c.continuation s))
post_create-IsRecorded_example =
    post_create-IsRecorded test_env test_policy test_platform 1000 200 any_date any_event calls
      schedule empty_store empty_store-IsValid 0 create_request create_response create-Responded
      (omega arith)

-- The cancellation of the continuation that was created.
abbrev other_calls : List HttpCall
other_calls = posts_create create_request ∷ posts_cancel cancel_request (codes "c") ∷ []

abbrev other_schedule : List (ℕ × Input)
other_schedule =
    (0, at 5)
    ∷ (0, at 5)
    ∷ (0, at 5)
    ∷ (0, at 5)
    ∷ (0, at 5)
    ∷ (1, at 6)
    ∷ (1, at 7)
    ∷ (1, at 7)
    ∷ (1, at 8)
    ∷ []

abbrev other_final : Pool HttpCall Response
other_final = run any_event other_schedule (
    received test_env test_policy test_platform 1000 200 any_date any_event other_calls empty_store)

abbrev cancel_response : Response
cancel_response = record {
  status = 200;
  body = continuation (record resumed_state { lifecycle = Lifecycle.cancelled (7 ∷ []) none });
}

cancel-Responded :
    Responded test_env test_policy test_platform 1000 200 any_date any_event other_final 1
      (posts_cancel cancel_request (codes "c"))
      cancel_response
unfolding whole_http
cancel-Responded = refl

post_cancel-IsDurable_example :
    (input : CancelContinuationInput) × (cancel_input 200 cancel_request (codes "c") ≡ ok input)
    × ((s : ContinuationEnvelope) × (cancel_response
          ≡ record { status = 200; body = continuation s })
        × (replay_continuation (other_final.streams input.continuation_id) ≡ ok (some s))
        × IsCancellation input s)
post_cancel-IsDurable_example =
    post_cancel-IsDurable test_env test_policy test_platform 1000 200 any_date any_event other_calls
      other_schedule empty_store empty_store-IsValid 1 cancel_request (codes "c") cancel_response
      cancel-Responded (omega arith)

-- The projection of a continuation that was created.
abbrev asking_request : Request
asking_request = with_body (
    obj (
      entry (codes "continuationId") (str (codes "c"))
        (entry (codes "payload") (obj (entry (codes "message") (str (codes "m")) end)) end)))

abbrev projection_request : Request
projection_request = with_body (
    obj (
      entry (codes "contextId") (str (codes "fresh"))
        (entry (codes "taskId") (str (codes "t")) end)))

abbrev asked : HttpCall
asked = posts_projection projection_request (codes "c") (codes "a2a")

abbrev asked_final : Pool HttpCall Response
asked_final =
    run any_event
      ((0, at 5) ∷ (0, at 5) ∷ (0, at 5) ∷ (0, at 5) ∷ (0, at 5) ∷ (1, at 6) ∷ (1, at 7) ∷ [])
      (received test_env test_policy test_platform 1000 200 any_date any_event
        (posts_create asking_request ∷ asked ∷ []) empty_store)

abbrev asking_state : ContinuationEnvelope
asking_state = record resumed_state {
  version = 1;
  payload = obj (entry (codes "message") (str (codes "m")) end);
  lifecycle = Lifecycle.pending token;
}

abbrev projection_response_of : Response
projection_response_of = record {
  status = 200;
  body = projected (
      a2a_task (
        task_of asking_state (record { context_id = codes "fresh"; task_id = codes "t" })
          (record { kind = input; message = codes "m" })));
}

projection-Responded :
    Responded test_env test_policy test_platform 1000 200 any_date any_event asked_final 1 asked
      projection_response_of
unfolding whole_http post_projection bounded projection_response read_protocol respond project
    parse_a2a adapted to_a2a_interrupted_task require_pending require_binding parse_payload as_text
    inspect
projection-Responded = refl

post_projection-IsView_example :
    (s : ContinuationEnvelope) × IsView test_env test_policy 200 projection_request
      (codes "c")
      (codes "a2a")
      projection_response_of
      s
    × (status s ≡ ContinuationStatus.pending)
    × ((t : ContinuationEnvelope) × (replay_continuation (asked_final.streams (codes "c"))
          ≡ ok (some t))
        × IsSince s t)
post_projection-IsView_example =
    post_projection-IsView test_env test_policy test_platform 1000 200 any_date any_event
      (posts_create asking_request ∷ asked ∷ [])
      ((0, at 5) ∷ (0, at 5) ∷ (0, at 5) ∷ (0, at 5) ∷ (0, at 5) ∷ (1, at 6) ∷ (1, at 7) ∷ [])
      empty_store empty_store-IsValid 1 projection_request (codes "c") (codes "a2a")
      projection_response_of projection-Responded (omega arith)

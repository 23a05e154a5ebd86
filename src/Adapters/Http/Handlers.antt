-- ===== src/Adapters/Http/Handlers.antt =====
-- The routes of adapters/http/app.ts on continuations: each reads its request, calls one method of
-- the service, and answers what the method returns or what was thrown.
use pausemesh.Prelude.{ℕ, Bool, Result, ok, err, ◌>>=◌}
use pausemesh.Prelude.Text.{Text}
use pausemesh.Domain.Types.{ContinuationId}
use pausemesh.Ports.Platform.{Platform}
use pausemesh.Service.Program
use pausemesh.Service.Program.{Program, attempt}
use pausemesh.Service.Inputs.{
  CreateContinuationInput, ResumeContinuationInput, CancelContinuationInput,
}
use pausemesh.Service.Methods.{create, inspect, history, resume, cancel}
use pausemesh.Adapters.Http.Errors.{
  Thrown, failure, Body, created, continuation, events, Response, error_response,
}
use pausemesh.Adapters.Http.Requests.{
  Request, read_bounded_json, parse_create, parse_resume, parse_cancel, idempotency_key,
  resume_token,
}

-- The answer to a method that returns, and `app.onError`.
unfoldable pub answer : {A : Type 0} → ℕ → (A → Body) → Program A → Program Response
answer status body method =
    attempt (Program.◌>>=◌ method (λ a. Program.done (record { status = status; body = body a })))
      (λ error. Program.done (error_response (failure error)))

-- A method on an input that was read from the request.
unfoldable pub call :
    {I A : Type 0} → ℕ → (A → Body) → (I → Program A) → Result Thrown I → Program Response
call status body method (err thrown) = Program.done (error_response thrown)
call status body method (ok input) = answer status body (method input)

module _ (limit : ℕ) where
  unfoldable pub resume_input : Request → ContinuationId → Result Thrown ResumeContinuationInput
  resume_input request id = do
    json ← read_bounded_json limit request
    payload ← parse_resume json
    key ← idempotency_key request
    token ← resume_token request id
    ok (record {
      continuation_id = id;
      idempotency_key = key;
      resume_payload = payload;
      resume_token = token;
    })

  unfoldable pub cancel_input : Request → ContinuationId → Result Thrown CancelContinuationInput
  cancel_input request id = do json ← read_bounded_json limit request; parse_cancel id json

  unfoldable pub create_input :
      Platform → (Text → Bool) → Request → Result Thrown CreateContinuationInput
  create_input platform is_datetime request = do
    json ← read_bounded_json limit request
    parse_create platform is_datetime json

module _ (platform : Platform) (ttl limit : ℕ) where
  unfoldable pub post_create : (Text → Bool) → Request → Program Response
  post_create is_datetime request =
      call 201 created (create platform ttl) (create_input limit platform is_datetime request)

  unfoldable pub post_resume : Request → ContinuationId → Program Response
  post_resume request id = call 200 continuation (resume platform) (resume_input limit request id)

  unfoldable pub post_cancel : Request → ContinuationId → Program Response
  post_cancel request id = call 200 continuation (cancel platform) (cancel_input limit request id)

  unfoldable pub get_continuation : ContinuationId → Program Response
  get_continuation id = answer 200 continuation (inspect platform id)

  unfoldable pub get_events : ContinuationId → Program Response
  get_events id = answer 200 events (history id)

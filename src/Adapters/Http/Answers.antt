-- ===== src/Adapters/Http/Answers.antt =====
-- What a successful answer of the routes of adapters/http/app.ts means.
use pausemesh.Prelude.{ℕ, ◌<◌, ◌≡◌, refl, Bool, Result, ok, err, arith}
use pausemesh.Prelude.Text.{Text}
use pausemesh.Domain.Types.{ContinuationId}
use pausemesh.Domain.Events.{ContinuationEvent}
use pausemesh.Ports.Platform.{Platform}
use pausemesh.Ports.EventStore.{Streams}
use pausemesh.Service.Program.{Program}
use pausemesh.Service.Methods.{create, resume, cancel}
use pausemesh.Service.Ensures.{Post, Ensures, Ensures-bind, Ensures-attempt}
use pausemesh.Service.Resuming.{Resumes, resume-Ensures}
use pausemesh.Service.Cancelling.{Cancels, cancel-Ensures}
use pausemesh.Service.Creating.{Creates, create-Ensures}
use pausemesh.Adapters.Http.Errors.{
  Thrown, failure, Body, created, continuation, Response, error_response, error_response_status,
}
use pausemesh.Adapters.Http.Requests.{Request}
use pausemesh.Adapters.Http.Handlers.{
  answer, call, resume_input, cancel_input, create_input, post_create, post_resume, post_cancel,
}

-- The route answers, whatever happens, and an answer with a status below 400 is one of the method
-- on the input of the request.
abbrev pub Serves : {I A : Type 0} → ℕ → (A → Body) → Result Thrown I → (I → Post A) → Post Response
Serves {I} {A} status body read Q (ok r) streams =
    r.status < 400
    → (input : I) × (read ≡ ok input)
      × ((a : A) × (r ≡ record { status = status; body = body a }) × Q input (ok a) streams)
Serves status body read Q (err e) streams = ⊥

module _ (accepts : ContinuationEvent → Bool) {I A : Type 0} (status : ℕ) (body : A → Body)
    (method : I → Program A) (Q : I → Post A) (read : Result Thrown I) where
  error-Serves :
      (thrown : Thrown) (streams : Streams)
      → Serves status body read Q (ok (error_response thrown)) streams
  error-Serves thrown streams low = absurd (omega (arith, error_response_status thrown, low))

  -- The response, or the failure, of the method on an input.
  Returns : I → Post Response
  Returns input (ok r) streams =
      (a : A) × (r ≡ record { status = status; body = body a }) × Q input (ok a) streams
  Returns input (err e) streams = Unit

  call-Serves :
      (streams : Streams)
      → ((input : I) → Ensures accepts (Q input) (method input) streams)
      → (r : Result Thrown I) → read ≡ r
      → Ensures accepts (Serves status body read Q) (call status body method r) streams
  unfolding call answer Returns
  call-Serves streams h (err thrown) e = error-Serves thrown streams
  call-Serves streams h (ok input) e =
      Ensures-attempt accepts (Returns input) (Serves status body read Q) _ _ streams
        (Ensures-bind accepts (Q input) (Returns input) (method input) _ streams (h input)
          (λ a t q. (a, refl, q)) (λ x t q. tt))
        (λ r t q low. (input, e, q)) (λ x t q. error-Serves (failure x) t)

module _ (accepts : ContinuationEvent → Bool) (platform : Platform) (ttl limit : ℕ) where
  -- Whatever other clients of the store do between its steps, the route that resumes answers, and
  -- it answers with a status below 400 only with the continuation that the stream recorded for the
  -- key and the payload of the request, whose token is the one of the stream.
  pub post_resume-Serves :
      (request : Request) (id : ContinuationId) (streams : Streams)
      → Ensures accepts
          (Serves 200 continuation (resume_input limit request id) (Resumes platform))
          (post_resume platform ttl limit request id)
          streams
  unfolding post_resume
  post_resume-Serves request id streams =
      call-Serves accepts 200 continuation (resume platform) (Resumes platform) _ streams
        (λ input. resume-Ensures accepts platform input streams) _ refl

  -- The route that cancels answers, and it answers with a status below 400 only with a continuation
  -- that was cancelled for the reason and at the version of the request.
  pub post_cancel-Serves :
      (request : Request) (id : ContinuationId) (streams : Streams)
      → Ensures accepts
          (Serves 200 continuation (cancel_input limit request id) Cancels)
          (post_cancel platform ttl limit request id)
          streams
  unfolding post_cancel
  post_cancel-Serves request id streams =
      call-Serves accepts 200 continuation (cancel platform) Cancels _ streams
        (λ input. cancel-Ensures accepts platform input streams) _ refl

  -- The route that creates answers, and it answers with a status below 400 only with a pending
  -- continuation of the payload and the identifiers of the request, which is recorded.
  pub post_create-Serves :
      (is_datetime : Text → Bool) (request : Request) (streams : Streams)
      → Ensures accepts
          (Serves 201 created (create_input limit platform is_datetime request) (Creates platform))
          (post_create platform ttl limit is_datetime request)
          streams
  unfolding post_create
  post_create-Serves is_datetime request streams =
      call-Serves accepts 201 created (create platform ttl) (Creates platform) _ streams
        (λ input. create-Ensures accepts platform input ttl streams) _ refl

-- ===== src/Adapters/Http/Traffic.antt =====
-- Requests to adapters/http/app.ts that are handled concurrently, on one store.
use pausemesh.Prelude.{
  All, All-get_elem?, get_elem?, map, ℕ, ◌<◌, ◌≡◌, Bool, some, List, [], ◌∷◌, Result, ok, err, ap,
}
use pausemesh.Prelude.Text.{Text}
use pausemesh.Domain.Types.{
  ContinuationId, ContinuationEnvelope, ContinuationStatus, status, status_of,
}
use pausemesh.Domain.Events.{ContinuationEvent}
use pausemesh.Domain.Reducer.{replay_continuation}
use pausemesh.Domain.Reducer.Replay.{replay_of_History}
use pausemesh.Ports.Platform.{Platform}
use pausemesh.Ports.EventStore.{Streams}
use pausemesh.Ports.EventStore.Streams.{IsValid}
use pausemesh.Service.Program.{Program, done}
use pausemesh.Service.Inputs.{
  CreateContinuationInput, CreatedContinuation, ResumeContinuationInput, CancelContinuationInput,
}
use pausemesh.Service.Ensures.{Post, IsStable, Ensures}
use pausemesh.Service.Promises.{Read-later}
use pausemesh.Service.Resuming.{IsOutcome, IsAuthorized, IsAuthorized-Later, Resumes}
use pausemesh.Service.Cancelling.{IsCancellation, Cancels}
use pausemesh.Service.Creating.{IsCreated, Creates}
use pausemesh.Service.Interleaving.{Input, Client, Pool, run, IsSafe, IsOnTrack, run-IsSafe}
use pausemesh.Service.Settled.{Read-closed, Read-pending, IsSince, resumed-closed, cancelled-closed}
use pausemesh.Adapters.Http.Errors.{Thrown, Body, created, continuation, Response}
use pausemesh.Adapters.Http.Requests.{Request}
use pausemesh.Adapters.Http.Handlers.{
  resume_input, cancel_input, create_input, post_create, post_resume, post_cancel,
}
use pausemesh.Adapters.Http.Answers.{
  Serves, post_create-Serves, post_resume-Serves, post_cancel-Serves,
}
use pausemesh.Adapters.Mcp.Urls.{McpProjectionPolicy}
use pausemesh.Adapters.Mcp.Issuing.{Environment}
use pausemesh.Adapters.Http.Projections.{post_projection}
use pausemesh.Adapters.Http.Projected.{
  IsView, Projects, Projects-IsStable, post_projection-Projects, project-pending,
}

pub data HttpCall : Type 0 where
  posts_create : Request → HttpCall
  posts_resume : Request → ContinuationId → HttpCall
  posts_cancel : Request → ContinuationId → HttpCall
  posts_projection : Request → ContinuationId → Text → HttpCall

Resumes-IsStable :
    (platform : Platform) (input : ResumeContinuationInput) → IsStable (Resumes platform input)
Resumes-IsStable platform input (ok o) s t q l = (
  Read-later input.continuation_id o s t q.0 l.0,
  q.1,
  IsAuthorized-Later platform input.continuation_id input.resume_token s t q.2 l,
)
Resumes-IsStable platform input (err e) s t q l = tt

Cancels-IsStable : (input : CancelContinuationInput) → IsStable (Cancels input)
Cancels-IsStable input (ok o) s t q l = (Read-later input.continuation_id o s t q.0 l.0, q.1)
Cancels-IsStable input (err e) s t q l = tt

Creates-IsStable :
    (platform : Platform) (input : CreateContinuationInput) → IsStable (Creates platform input)
Creates-IsStable platform input (ok c) s t q l =
    (Read-later c.continuation.continuation_id c.continuation s t q.0 l.0, q.1)
Creates-IsStable platform input (err e) s t q l = tt

Serves-IsStable :
    {I A : Type 0} (status : ℕ) (body : A → Body) (read : Result Thrown I) (Q : I → Post A)
    → ((input : I) → IsStable (Q input))
    → IsStable (Serves status body read Q)
Serves-IsStable status body read Q stable (ok r) s t h l = λ low.
    let (input, e, (a, same, q)) = h low in (input, e, (a, same, stable input (ok a) s t q l))
Serves-IsStable status body read Q stable (err e) s t h l = absurd h

module _ (env : Environment) (policy : McpProjectionPolicy) (platform : Platform) (ttl limit : ℕ)
    (is_datetime : Text → Bool) where
  unfoldable pub handle : HttpCall → Program Response
  handle (posts_create request) = post_create platform ttl limit is_datetime request
  handle (posts_resume request id) = post_resume platform ttl limit request id
  handle (posts_cancel request id) = post_cancel platform ttl limit request id
  handle (posts_projection request id protocol) =
      post_projection env policy limit platform request id protocol

  abbrev HttpPromise : HttpCall → Post Response
  HttpPromise (posts_create request) =
      Serves 201 created (create_input limit platform is_datetime request) (Creates platform)
  HttpPromise (posts_resume request id) =
      Serves 200 continuation (resume_input limit request id) (Resumes platform)
  HttpPromise (posts_cancel request id) =
      Serves 200 continuation (cancel_input limit request id) Cancels
  HttpPromise (posts_projection request id protocol) = Projects env policy limit request id protocol

  HttpPromise-IsStable : (call : HttpCall) → IsStable (HttpPromise call)
  HttpPromise-IsStable (posts_create request) =
      Serves-IsStable 201 created (create_input limit platform is_datetime request)
        (Creates platform) (Creates-IsStable platform)
  HttpPromise-IsStable (posts_resume request id) =
      Serves-IsStable 200 continuation (resume_input limit request id) (Resumes platform)
        (Resumes-IsStable platform)
  HttpPromise-IsStable (posts_cancel request id) =
      Serves-IsStable 200 continuation (cancel_input limit request id) Cancels Cancels-IsStable
  HttpPromise-IsStable (posts_projection request id protocol) =
      Projects-IsStable env policy limit request id protocol

  module _ (accepts : ContinuationEvent → Bool) where
    handle-Ensures :
        (call : HttpCall) (streams : Streams)
        → Ensures accepts (HttpPromise call) (handle call) streams
    unfolding handle
    handle-Ensures (posts_create request) streams =
        post_create-Serves accepts platform ttl limit is_datetime request streams
    handle-Ensures (posts_resume request id) streams =
        post_resume-Serves accepts platform ttl limit request id streams
    handle-Ensures (posts_cancel request id) streams =
        post_cancel-Serves accepts platform ttl limit request id streams
    handle-Ensures (posts_projection request id protocol) streams =
        post_projection-Projects env policy limit accepts platform ttl request id protocol streams

    abbrev pub handler : HttpCall → Client HttpCall Response
    handler call = record { call = call; program = handle call }

    -- The requests, all received, on a store.
    abbrev pub received : List HttpCall → Streams → Pool HttpCall Response
    received calls streams = record { clients = map handler calls; streams = streams }

    -- The request at the index was answered by this response.
    abbrev pub Responded : Pool HttpCall Response → ℕ → HttpCall → Response → Type 0
    Responded pool i call r =
        get_elem? pool.clients i ≡ some (record { call = call; program = done r })

    handled-IsOnTrack :
        (calls : List HttpCall) (streams : Streams)
        → All (IsOnTrack accepts HttpPromise HttpPromise-IsStable streams) (map handler calls)
    handled-IsOnTrack [] streams = tt
    handled-IsOnTrack (call ∷ calls) streams =
        (handle-Ensures call streams, handled-IsOnTrack calls streams)

    module _ (calls : List HttpCall) (schedule : List (ℕ × Input)) (streams : Streams)
        (valid : IsValid streams) where
      abbrev after : Pool HttpCall Response
      after = run accepts schedule (received calls streams)

      safe : IsSafe accepts HttpPromise HttpPromise-IsStable after
      safe =
          run-IsSafe accepts HttpPromise HttpPromise-IsStable schedule (received calls streams)
            (valid, handled-IsOnTrack calls streams)

      kept :
          (i : ℕ) (call : HttpCall) (r : Response)
          → Responded after i call r
          → HttpPromise call (ok r) after.streams
      kept i call r e =
          All-get_elem? (IsOnTrack accepts HttpPromise HttpPromise-IsStable after.streams)
            after.clients i safe.1 e

      -- From a store of lawful histories, under every schedule of the requests, the clock and the
      -- faults of the store included: a request to resume that is answered with a status below 400
      -- is valid, holds the token of the stream, and is answered by the state to which the stream
      -- replays, which records its key and a payload with its canonical text.
      pub post_resume-IsDurable :
          (i : ℕ) (request : Request) (id : ContinuationId) (r : Response)
          → Responded after i (posts_resume request id) r
          → r.status < 400
          → (input : ResumeContinuationInput) × (resume_input limit request id ≡ ok input)
            × ((s : ContinuationEnvelope) × (r ≡ record { status = 200; body = continuation s })
                × (replay_continuation (after.streams input.continuation_id) ≡ ok (some s))
                × IsOutcome input s
                × IsAuthorized platform input.continuation_id input.resume_token after.streams)
      post_resume-IsDurable i request id r e low =
          let (input, read, (s, same, (o, outcome, authorized))) =
            kept i (posts_resume request id) r e low in
          (
            input,
            read,
            (
              s,
              same,
              replay_of_History (
                  Read-closed input.continuation_id s after.streams (resumed-closed s input outcome)
                    safe.0 o),
              outcome,
              authorized,
            ),
          )

      -- From a store of lawful histories, under every schedule, a request to cancel that is
      -- answered with a status below 400 is valid, and is answered by the state to which the stream
      -- replays, with the reason of the request and the version after the expected one, where it
      -- expects one.
      pub post_cancel-IsDurable :
          (i : ℕ) (request : Request) (id : ContinuationId) (r : Response)
          → Responded after i (posts_cancel request id) r
          → r.status < 400
          → (input : CancelContinuationInput) × (cancel_input limit request id ≡ ok input)
            × ((s : ContinuationEnvelope) × (r ≡ record { status = 200; body = continuation s })
                × (replay_continuation (after.streams input.continuation_id) ≡ ok (some s))
                × IsCancellation input s)
      post_cancel-IsDurable i request id r e low =
          let (input, read, (s, same, (o, outcome))) = kept i (posts_cancel request id) r e low in
          (
            input,
            read,
            (
              s,
              same,
              replay_of_History (
                  Read-closed input.continuation_id s after.streams
                    (cancelled-closed s input outcome) safe.0 o),
              outcome,
            ),
          )

      -- From a store of lawful histories, under every schedule, a request to create that is
      -- answered with a status below 400 is valid, and is answered by a pending continuation of its
      -- payload and identifiers, whose stream replays to it or to what one transition has made of
      -- it.
      pub post_create-IsRecorded :
          (i : ℕ) (request : Request) (r : Response)
          → Responded after i (posts_create request) r
          → r.status < 400
          → (input : CreateContinuationInput) × (create_input limit platform is_datetime request
              ≡ ok input)
            × ((c : CreatedContinuation) × (r ≡ record { status = 201; body = created c })
                × IsCreated platform input c.continuation
                × ((s : ContinuationEnvelope) × (replay_continuation
                        (after.streams c.continuation.continuation_id)
                      ≡ ok (some s))
                    × IsSince c.continuation s))
      post_create-IsRecorded i request r e low =
          let (input, read, (c, same, (o, is_created))) = kept i (posts_create request) r e low in
          (
            input,
            read,
            (
              c,
              same,
              is_created,
              Read-pending c.continuation.continuation_id c.continuation after.streams
                  (ap status_of is_created.pending) safe.0 o,
            ),
          )

      -- From a store of lawful histories, under every schedule, a request for a projection that is
      -- answered with a status below 400 is answered by what the adapter of the named protocol made
      -- of a pending state of the continuation, whose stream replays to that state or to what one
      -- transition has made of it.
      pub post_projection-IsView :
          (i : ℕ) (request : Request) (id : ContinuationId) (protocol : Text) (r : Response)
          → Responded after i (posts_projection request id protocol) r
          → r.status < 400
          → (s : ContinuationEnvelope) × IsView env policy limit request id protocol r s
            × (status s ≡ ContinuationStatus.pending)
            × ((t : ContinuationEnvelope) × (replay_continuation (after.streams id) ≡ ok (some t))
                × IsSince s t)
      post_projection-IsView i request id protocol r e low =
          let (s, read, p) = kept i (posts_projection request id protocol) r e low in
          let pending = project-pending env policy limit p.protocol s request p.projection p.made in
          (s, p, pending, Read-pending id s after.streams pending safe.0 read)

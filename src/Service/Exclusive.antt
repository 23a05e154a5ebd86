-- ===== src/Service/Exclusive.antt =====
-- What clients of one store see of one another, under every schedule of their steps.
use pausemesh.Prelude.{
  All, All-get_elem?, get_elem?, map, ℕ, ◌≡◌, ap, Bool, some, List, [], ◌∷◌, ok, arith,
}
use pausemesh.Json.Canonical.{canonical_json}
use pausemesh.Domain.Types.{ContinuationEnvelope, status_of}
use pausemesh.Domain.Events.{ContinuationEvent}
use pausemesh.Domain.Reducer.{replay_continuation}
use pausemesh.Domain.Reducer.Replay.{History, replay_of_History}
use pausemesh.Ports.Platform.{Platform}
use pausemesh.Ports.EventStore.{Streams}
use pausemesh.Ports.EventStore.Streams.{IsValid}
use pausemesh.Service.Program.{Program}
use pausemesh.Service.Inputs.{
  CreateContinuationInput, CreatedContinuation, ResumeContinuationInput, CancelContinuationInput,
}
use pausemesh.Service.Resuming.{IsOutcome, IsAuthorized}
use pausemesh.Service.Cancelling.{IsCancellation}
use pausemesh.Service.Creating.{IsCreated}
use pausemesh.Service.Calls.{
  Call, creates, resumes_with, cancels_with, Reply, issued, envelope, serve, Promise,
  Promise-IsStable, serve-Ensures,
}
use pausemesh.Service.Interleaving.{Input, Client, Pool, run, IsSafe, IsOnTrack, run-IsSafe}
use pausemesh.Service.Settled.{
  History-unique, Read-closed, resumed-closed, outcomes_agree, cancelled-closed, IsSince,
  Read-pending,
}

module _ (platform : Platform) (ttl : ℕ) (accepts : ContinuationEvent → Bool) where
  abbrev pub client : Call → Client Call Reply
  client call = record { call = call; program = serve platform ttl call }

  -- The calls, all started, on a store.
  abbrev pub started : List Call → Streams → Pool Call Reply
  started calls streams = record { clients = map client calls; streams = streams }

  -- The client at the index has returned this reply to this call.
  abbrev pub Answered : Pool Call Reply → ℕ → Call → Reply → Type 0
  Answered pool i call reply =
      get_elem? pool.clients i ≡ some (record { call = call; program = Program.done reply })

  All-IsOnTrack :
      (calls : List Call) (streams : Streams)
      → All
          (IsOnTrack accepts (Promise platform ttl) (Promise-IsStable platform ttl) streams)
          (map client calls)
  All-IsOnTrack [] streams = tt
  All-IsOnTrack (call ∷ calls) streams =
      (serve-Ensures platform ttl accepts call streams, All-IsOnTrack calls streams)

  module _ (calls : List Call) (schedule : List (ℕ × Input)) (streams : Streams)
      (valid : IsValid streams) where
    abbrev final : Pool Call Reply
    final = run accepts schedule (started calls streams)

    safe : IsSafe accepts (Promise platform ttl) (Promise-IsStable platform ttl) final
    safe =
        run-IsSafe accepts (Promise platform ttl) (Promise-IsStable platform ttl) schedule
          (started calls streams) (valid, All-IsOnTrack calls streams)

    -- From a store of lawful histories, whatever the calls and their schedule, every stream stays
    -- empty or a lawful history of its identifier.
    pub run-IsValid : IsValid (run accepts schedule (started calls streams)).streams
    run-IsValid = safe.0

    promised :
        (i : ℕ) (call : Call) (reply : Reply)
        → Answered final i call reply
        → Promise platform ttl call (ok reply) final.streams
    promised i call reply e =
        All-get_elem?
          (IsOnTrack accepts (Promise platform ttl) (Promise-IsStable platform ttl) final.streams)
          final.clients i safe.1 e

    -- What an answered resume has left in the store.
    resumed_for_good :
        (i : ℕ) (input : ResumeContinuationInput) (s : ContinuationEnvelope)
        → Answered final i (resumes_with input) (envelope s)
        → History (final.streams input.continuation_id) s
          × IsOutcome input s
          × IsAuthorized platform input.continuation_id input.resume_token final.streams
    resumed_for_good i input s e =
        let (o, kind, (r, outcome, authorized)) = promised i (resumes_with input) (envelope s) e in
        let same : s ≡ o = ground arith in
        rw same (
          Read-closed input.continuation_id o final.streams (resumed-closed o input outcome) safe.0
              r,
          outcome,
          authorized,
        )

    cancelled_for_good :
        (i : ℕ) (input : CancelContinuationInput) (s : ContinuationEnvelope)
        → Answered final i (cancels_with input) (envelope s)
        → History (final.streams input.continuation_id) s × IsCancellation input s
    cancelled_for_good i input s e =
        let (o, kind, (r, outcome)) = promised i (cancels_with input) (envelope s) e in
        let same : s ≡ o = ground arith in
        rw same (
          Read-closed input.continuation_id o final.streams (cancelled-closed o input outcome)
              safe.0 r,
          outcome,
        )

    -- From a store of lawful histories, under every schedule, the clock, the faults of the store and
    -- the other calls included: a resume that returned a state did so to a holder of the token of
    -- the stream, the state records its key and a payload with its canonical text, and the stream
    -- replays to that state.
    pub resume-IsDurable :
        (i : ℕ) (input : ResumeContinuationInput) (s : ContinuationEnvelope)
        → Answered final i (resumes_with input) (envelope s)
        → (replay_continuation (final.streams input.continuation_id) ≡ ok (some s))
          × IsOutcome input s
          × IsAuthorized platform input.continuation_id input.resume_token final.streams
    resume-IsDurable i input s e =
        let (h, outcome, authorized) = resumed_for_good i input s e in
        (replay_of_History h, outcome, authorized)

    -- From a store of lawful histories, under every schedule: two resumes of one continuation that
    -- both returned a state have the same idempotency key, payloads with the same canonical text,
    -- and the same answer.
    pub resume-IsExclusive :
        (i j : ℕ) (a b : ResumeContinuationInput) (s t : ContinuationEnvelope)
        → a.continuation_id ≡ b.continuation_id
        → Answered final i (resumes_with a) (envelope s)
        → Answered final j (resumes_with b) (envelope t)
        → (s ≡ t)
          × (a.idempotency_key ≡ b.idempotency_key)
          × (canonical_json a.resume_payload ≡ canonical_json b.resume_payload)
    resume-IsExclusive i j a b s t same p q =
        let (h, x, _) = resumed_for_good i a s p in
        let (g, y, _) = resumed_for_good j b t q in
        let one : s ≡ t = History-unique h (rw same g) in
        let (key, payload) = outcomes_agree a b s x (rw one y) in (one, key, payload)

    -- From a store of lawful histories, under every schedule, a continuation is never both resumed
    -- and cancelled: of a resume and a cancellation of it, one does not return a state.
    pub resume-excludes-cancel :
        (i j : ℕ) (a : ResumeContinuationInput) (b : CancelContinuationInput)
        (s t : ContinuationEnvelope)
        → a.continuation_id ≡ b.continuation_id
        → Answered final i (resumes_with a) (envelope s)
        → ¬ Answered final j (cancels_with b) (envelope t)
    resume-excludes-cancel i j a b s t same p q =
        let (h, x, _) = resumed_for_good i a s p in
        let (g, y) = cancelled_for_good j b t q in
        let one : s ≡ t = History-unique h (rw same g) in
        cc (x.resumed, y.cancelled, ap (λ (e : ContinuationEnvelope). e.lifecycle) one)

    -- From a store of lawful histories, under every schedule, a cancellation that returned a state
    -- is durable: the stream replays to that state, which has the reason of the call and the version
    -- after the expected one, where the call expects one.
    pub cancel-IsDurable :
        (i : ℕ) (input : CancelContinuationInput) (s : ContinuationEnvelope)
        → Answered final i (cancels_with input) (envelope s)
        → (replay_continuation (final.streams input.continuation_id) ≡ ok (some s))
          × IsCancellation input s
    cancel-IsDurable i input s e =
        let (h, outcome) = cancelled_for_good i input s e in (replay_of_History h, outcome)

    -- From a store of lawful histories, under every schedule, a creation that returned is recorded:
    -- the continuation is pending, has the payload and the given identifiers of the input and
    -- expires after its creation, and its stream replays to it, or to what one transition has made
    -- of it.
    pub create-IsRecorded :
        (i : ℕ) (input : CreateContinuationInput) (c : CreatedContinuation)
        → Answered final i (creates input) (issued c)
        → IsCreated platform input c.continuation
          × ((s : ContinuationEnvelope) × (replay_continuation
                  (final.streams c.continuation.continuation_id)
                ≡ ok (some s))
              × IsSince c.continuation s)
    create-IsRecorded i input c e =
        let (o, kind, (r, created)) = promised i (creates input) (issued c) e in
        let same : c ≡ o = ground arith in
        rw same (
          created,
          Read-pending o.continuation.continuation_id o.continuation final.streams
              (ap status_of created.pending) safe.0 r,
        )

-- ===== src/Service/Calls.antt =====
-- The calls of the service's interface, and what each one promises to its caller.
use pausemesh.Prelude.{ℕ, ◌≡◌, refl, ◌≢◌, Bool, Option, none, some, List, [], ◌∷◌, Result, ok, err}
use pausemesh.Domain.Types.{ContinuationId, ContinuationEnvelope}
use pausemesh.Domain.Events.{ContinuationEvent}
use pausemesh.Ports.Failure.{Failure}
use pausemesh.Ports.Platform.{Platform}
use pausemesh.Ports.EventStore.{Streams}
use pausemesh.Ports.EventStore.Streams.{Prefix, Prefix-refl, Prefix-trans}
use pausemesh.Service.Program.{Program, ◌>>=◌}
use pausemesh.Service.Inputs.{
  CreateContinuationInput, CreatedContinuation, ResumeContinuationInput, CancelContinuationInput,
}
use pausemesh.Service.Lookup.{load_required}
use pausemesh.Service.Expiry.{expire_if_due_now}
use pausemesh.Service.Methods.{resume, cancel, inspect, create, history, some_history}
use pausemesh.Service.Ensures.{Post, IsStable, Ensures, Ensures-bind, Ensures-weaken}
use pausemesh.Service.Promises.{Read, Read-later}
use pausemesh.Service.Reads.{Reads, load_required-Ensures}
use pausemesh.Service.Expiring.{expire_if_due_now-Ensures}
use pausemesh.Service.Resuming.{IsAuthorized-Later, Resumes, resume-Ensures}
use pausemesh.Service.Cancelling.{Cancels, cancel-Ensures}
use pausemesh.Service.Creating.{Creates, create-Ensures}

pub data Call : Type 0 where
  creates : CreateContinuationInput → Call
  resumes_with : ResumeContinuationInput → Call
  cancels_with : CancelContinuationInput → Call
  inspects : ContinuationId → Call
  reads_history : ContinuationId → Call

pub data Reply : Type 0 where
  issued : CreatedContinuation → Reply
  envelope : ContinuationEnvelope → Reply
  events : List ContinuationEvent → Reply

abbrev pub Inspects : ContinuationId → Post ContinuationEnvelope
Inspects id (ok s) streams = Read id s streams
Inspects id (err e) streams = Unit

abbrev pub ReadsHistory : ContinuationId → Post (List ContinuationEvent)
ReadsHistory id (ok es) streams = (es ≢ []) × Prefix es (streams id)
ReadsHistory id (err e) streams = Unit

-- The reply of the right kind, with the postcondition of its method.
abbrev pub WithReply : {A : Type 0} → (Reply → Option A) → Post A → Post Reply
WithReply kind Q (ok reply) streams = (a : _) × (kind reply ≡ some a) × Q (ok a) streams
WithReply kind Q (err e) streams = Q (err e) streams

abbrev pub as_issued : Reply → Option CreatedContinuation
as_issued (issued c) = some c
as_issued _ = none

abbrev pub as_envelope : Reply → Option ContinuationEnvelope
as_envelope (envelope s) = some s
as_envelope _ = none

abbrev pub as_events : Reply → Option (List ContinuationEvent)
as_events (events es) = some es
as_events _ = none

module _ (platform : Platform) (ttl : ℕ) where
  unfoldable pub serve : Call → Program Reply
  serve (creates input) = do c ← create platform ttl input; Program.done (issued c)
  serve (resumes_with input) = do s ← resume platform input; Program.done (envelope s)
  serve (cancels_with input) = do s ← cancel platform input; Program.done (envelope s)
  serve (inspects id) = do s ← inspect platform id; Program.done (envelope s)
  serve (reads_history id) = do es ← history id; Program.done (events es)

  abbrev pub Promise : Call → Post Reply
  Promise (creates input) = WithReply as_issued (Creates platform input)
  Promise (resumes_with input) = WithReply as_envelope (Resumes platform input)
  Promise (cancels_with input) = WithReply as_envelope (Cancels input)
  Promise (inspects id) = WithReply as_envelope (Inspects id)
  Promise (reads_history id) = WithReply as_events (ReadsHistory id)

  -- No later step of another client takes a promise back.
  pub Promise-IsStable : (call : Call) → IsStable (Promise call)
  Promise-IsStable (creates input) (ok r) s t (c, e, q) l =
      (c, e, (Read-later c.continuation.continuation_id c.continuation s t q.0 l.0, q.1))
  Promise-IsStable (resumes_with input) (ok r) s t (o, e, q) l = (
    o,
    e,
    (
      Read-later input.continuation_id o s t q.0 l.0,
      q.1,
      IsAuthorized-Later platform input.continuation_id input.resume_token s t q.2 l,
    ),
  )
  Promise-IsStable (cancels_with input) (ok r) s t (o, e, q) l =
      (o, e, (Read-later input.continuation_id o s t q.0 l.0, q.1))
  Promise-IsStable (inspects id) (ok r) s t (o, e, q) l = (o, e, Read-later id o s t q l.0)
  Promise-IsStable (reads_history id) (ok r) s t (es, e, q) l =
      (es, e, (q.0, Prefix-trans es (s id) (t id) q.1 (l.0 id)))
  Promise-IsStable (creates input) (err x) s t q l = tt
  Promise-IsStable (resumes_with input) (err x) s t q l = tt
  Promise-IsStable (cancels_with input) (err x) s t q l = tt
  Promise-IsStable (inspects id) (err x) s t q l = tt
  Promise-IsStable (reads_history id) (err x) s t q l = tt

  module _ (accepts : ContinuationEvent → Bool) where
    pub inspect-Ensures :
        (id : ContinuationId) (streams : Streams)
        → Ensures accepts (Inspects id) (inspect platform id) streams
    unfolding inspect
    inspect-Ensures id streams =
        Ensures-bind accepts (Reads id (λ _. Unit)) (Inspects id) (load_required id) _ streams
          (load_required-Ensures accepts id (λ _. Unit) (λ s t k l. tt) streams tt)
          (λ s t (r, k).
            Ensures-weaken accepts (Reads id (λ _. Unit)) (Inspects id) forget
              (expire_if_due_now platform s) t
              (expire_if_due_now-Ensures accepts platform id (λ _. Unit) (λ s t k l. tt) s t r tt))
          (λ e t h. tt)
      where
        forget :
            (r : Result Failure ContinuationEnvelope) (t : Streams)
            → Reads id (λ _. Unit) r t
            → Inspects id r t
        forget (ok s) t h = h.0
        forget (err e) t h = tt

    some_history-Ensures :
        (id : ContinuationId) (es : List ContinuationEvent) (streams : Streams)
        → streams id ≡ es
        → Ensures accepts (ReadsHistory id) (some_history id es) streams
    unfolding some_history
    some_history-Ensures id [] streams e = tt
    some_history-Ensures id (x ∷ es) streams e = (cc, rw e (Prefix-refl (x ∷ es)))

    history-Ensures :
        (id : ContinuationId) (streams : Streams)
        → Ensures accepts (ReadsHistory id) (history id) streams
    unfolding history ◌>>=◌
    history-Ensures id streams = λ t l. (some_history-Ensures id (t id) t refl, tt)

    reply-Ensures :
        {A : Type 0} (kind : Reply → Option A) (wrap : A → Reply)
        → ((a : A) → kind (wrap a) ≡ some a)
        → (Q : Post A) (m : Program A) (streams : Streams) → Ensures accepts Q m streams
        → Ensures accepts (WithReply kind Q) (m >>= λ a. Program.done (wrap a)) streams
    reply-Ensures kind wrap e Q m streams h =
        Ensures-bind accepts Q (WithReply kind Q) m _ streams h (λ a t q. (a, e a, q)) (λ x t q. q)

    -- Every call keeps its promise from any store on.
    pub serve-Ensures :
        (call : Call) (streams : Streams) → Ensures accepts (Promise call) (serve call) streams
    unfolding serve
    serve-Ensures (creates input) streams =
        reply-Ensures as_issued issued (λ c. refl) (Creates platform input)
          (create platform ttl input) streams (create-Ensures accepts platform input ttl streams)
    serve-Ensures (resumes_with input) streams =
        reply-Ensures as_envelope envelope (λ c. refl) (Resumes platform input)
          (resume platform input) streams (resume-Ensures accepts platform input streams)
    serve-Ensures (cancels_with input) streams =
        reply-Ensures as_envelope envelope (λ c. refl) (Cancels input) (cancel platform input)
          streams (cancel-Ensures accepts platform input streams)
    serve-Ensures (inspects id) streams =
        reply-Ensures as_envelope envelope (λ c. refl) (Inspects id) (inspect platform id) streams
          (inspect-Ensures id streams)
    serve-Ensures (reads_history id) streams =
        reply-Ensures as_events events (λ c. refl) (ReadsHistory id) (history id) streams
          (history-Ensures id streams)

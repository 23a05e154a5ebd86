-- ===== src/Service/Settled.antt =====
-- What is settled about a stream from which a closed state, or a creation, was read.
use pausemesh.Prelude.{◌⊎◌, ◌≡◌, sym, ◌∙◌, ◌≢◌, some, List, [], ◌∷◌, ◌++◌, ok, subst, inl, inr}
use pausemesh.Json.Canonical.{canonical_json}
use pausemesh.Domain.Types.{
  ContinuationId, ContinuationEnvelope, ContinuationStatus, Lifecycle, status,
}
use pausemesh.Domain.Events.{ContinuationEvent}
use pausemesh.Domain.Reducer.{replay_continuation}
use pausemesh.Domain.Reducer.Steps.{Transition, Creation, reduce_of_Creation}
use pausemesh.Domain.Reducer.Replay.{Closes-terminal, History, opened, closed, replay_of_History}
use pausemesh.Ports.EventStore.{Streams}
use pausemesh.Ports.EventStore.Streams.{IsValid, closed_stays}
use pausemesh.Service.Inputs.{ResumeContinuationInput, CancelContinuationInput}
use pausemesh.Service.Promises.{Read}
use pausemesh.Service.Resuming.{IsOutcome}
use pausemesh.Service.Cancelling.{IsCancellation}

pub History-unique :
    {es : List ContinuationEvent} {s t : ContinuationEnvelope} → History es s → History es t → s ≡ t
History-unique h g = cc (replay_of_History h, replay_of_History g)

-- A closed state that was read is the state of the stream for ever.
pub Read-closed :
    (id : ContinuationId) (s : ContinuationEnvelope) (streams : Streams)
    → status s ≢ ContinuationStatus.pending
    → IsValid streams
    → Read id s streams
    → History (streams id) s
Read-closed id s streams ne v (es, h, i, p) = rw (closed_stays id (streams id) ne h p (v id)) h

pub resumed-closed :
    (s : ContinuationEnvelope) (input : ResumeContinuationInput)
    → IsOutcome input s
    → status s ≢ ContinuationStatus.pending
resumed-closed s input o = rw o.resumed (cc)

pub outcomes_agree :
    (a b : ResumeContinuationInput) (s : ContinuationEnvelope)
    → IsOutcome a s
    → IsOutcome b s
    → (a.idempotency_key ≡ b.idempotency_key)
      × (canonical_json a.resume_payload ≡ canonical_json b.resume_payload)
outcomes_agree a b s x y =
    let e : Lifecycle.resumed x.at a.idempotency_key x.payload
        ≡ Lifecycle.resumed y.at b.idempotency_key y.payload =
      sym x.resumed ∙ y.resumed in
    (cc e, cc (e, x.same_payload, y.same_payload))

pub cancelled-closed :
    (s : ContinuationEnvelope) (input : CancelContinuationInput)
    → IsCancellation input s
    → status s ≢ ContinuationStatus.pending
cancelled-closed s input o = rw o.cancelled (cc)

pub Creation-unique :
    {e : ContinuationEvent} {s t : ContinuationEnvelope} → Creation e s → Creation e t → s ≡ t
Creation-unique {e} {s} {t} c d = cc (reduce_of_Creation e s c, reduce_of_Creation e t d)

-- A continuation is as it was created, or closed by one transition.
abbrev pub IsSince : ContinuationEnvelope → ContinuationEnvelope → Type 0
IsSince created s = (s ≡ created) ⊎ ((event : ContinuationEvent) × Transition created event s)

pub read_something :
    {es : List ContinuationEvent} {o : ContinuationEnvelope}
    → History es o
    → (zs : List ContinuationEvent) → es ++ zs ≢ []
read_something (opened c) zs e = cc
read_something (closed c step) zs e = cc

pub History-IsSince :
    {e : ContinuationEvent} {o s : ContinuationEnvelope} (zs : List ContinuationEvent)
    → Creation e o
    → History (e ∷ zs) s
    → IsSince o s
History-IsSince zs c (opened d) = inl (Creation-unique d c)
History-IsSince zs c (closed {f} d step) = inr (f, rw (Creation-unique c d) step)

-- The history of a pending state that was read is its creation.
pub pending_history :
    {es : List ContinuationEvent} {o s : ContinuationEnvelope} (zs : List ContinuationEvent)
    → History es o
    → status o ≡ ContinuationStatus.pending
    → History (es ++ zs) s
    → IsSince o s
pending_history zs (opened c) pending h = History-IsSince zs c h
pending_history zs (closed c step) pending h = absurd (Closes-terminal step.closes pending)

pub Read-pending :
    (id : ContinuationId) (o : ContinuationEnvelope) (streams : Streams)
    → status o ≡ ContinuationStatus.pending
    → IsValid streams
    → Read id o streams
    → (s : ContinuationEnvelope) × (replay_continuation (streams id) ≡ ok (some s)) × IsSince o s
Read-pending id o streams pending v (es, h, i, (zs, p)) = elim (v id) [
  | inl empty ↦ absurd (read_something h zs (sym p ∙ empty))
  | inr (s, g, _) ↦
      (s, replay_of_History g, pending_history zs h pending (subst (λ l. History l s) p g))
]

-- ===== src/Service/Promises.antt =====
-- What the service knows of a stream that it has read, and the rules that its methods share.
use pausemesh.Prelude.{
  ◌+◌, ◌≡◌, refl, sym, ◌∙◌, ◌≢◌, Bool, some, List, [], ◌∷◌, Result, ok, err, subst, inl, inr,
}
use pausemesh.Prelude.Text.{Text}
use pausemesh.Domain.Types.{ContinuationId, ContinuationEnvelope, Lifecycle}
use pausemesh.Domain.Events.{ContinuationEvent, EventBody}
use pausemesh.Domain.Reducer.{terminal, replay_continuation}
use pausemesh.Domain.Reducer.Steps.{Closes, Transition, Creation, reduce_closing, reduce-Transition}
use pausemesh.Domain.Reducer.Replay.{History, opened, closed, replay-History, replay_of_History}
use pausemesh.Ports.Failure.{Failure, storage_error}
use pausemesh.Ports.EventStore.{Streams}
use pausemesh.Ports.EventStore.Streams.{
  Prefix, Prefix-refl, Prefix-trans, Grows, Grows-trans, Grows-of_Appended, IsValid,
  append_events-Appended, append_closing, append_creation,
}
use pausemesh.Service.Program.{Program}
use pausemesh.Service.Expiry.{closing_event}
use pausemesh.Service.Ensures.{Later, Post, Ensures}

-- `s` was the state of the stream, and the stream has kept the events of `s` since.
abbrev pub Read : ContinuationId → ContinuationEnvelope → Streams → Type 0
Read id s streams =
    (events : List ContinuationEvent) × History events s
    × (s.continuation_id ≡ id)
    × Prefix events (streams id)

pub Read-later :
    (id : ContinuationId) (s : ContinuationEnvelope) (before after : Streams)
    → Read id s before
    → Grows before after
    → Read id s after
Read-later id s before after (events, h, i, p) g =
    (events, h, i, Prefix-trans events (before id) (after id) p (g id))

-- What a whole stream replays to was read from it.
pub Read-of_History :
    (id : ContinuationId) (s : ContinuationEnvelope) (streams : Streams)
    → History (streams id) s
    → s.continuation_id ≡ id
    → Read id s streams
Read-of_History id s streams h i = (streams id, h, i, Prefix-refl (streams id))

History-nonempty :
    {events : List ContinuationEvent} {s : ContinuationEnvelope} → History events s → events ≢ []
History-nonempty (opened c) = cc
History-nonempty (closed c h) = cc

-- A replay of a valid stream has the identifier of the stream.
pub Read-of_replay :
    (id : ContinuationId) (s : ContinuationEnvelope) (streams : Streams)
    → IsValid streams
    → replay_continuation (streams id) ≡ ok (some s)
    → Read id s streams
Read-of_replay id s streams v r = elim (v id) [
  | inl empty ↦ absurd (not_empty empty)
  | inr (t, g, i) ↦
      let same : s ≡ t = cc (r, replay_of_History g) in
      Read-of_History id s streams (replay-History (streams id) s r) (rw same i)
]
  where
    not_empty : streams id ≡ [] → ⊥
    not_empty e = History-nonempty (replay-History (streams id) s r) e

-- The event that the service builds to close a pending state makes the transition.
pub closing_Transition :
    (id : ContinuationId) (s : ContinuationEnvelope) (h at : Text) {b : EventBody} {l : Lifecycle}
    → s.lifecycle ≡ Lifecycle.pending h
    → s.continuation_id ≡ id
    → Closes at b l
    → Transition s (closing_event id s at b) (terminal s (s.version + 1) l)
closing_Transition id s h at p i c =
    reduce-Transition s (closing_event id s at _) _
      (reduce_closing s (closing_event id s at _) h c refl refl p refl (sym i) refl)

module _ (accepts : ContinuationEvent → Bool) {A : Type 0} (Q : Post A) where
  -- The append of a fitting transition: it succeeds, its reply is lost, or it has no effect.
  pub append-Transition :
      (id : ContinuationId) (s t : ContinuationEnvelope) (event : ContinuationEvent)
      (k : Result Failure (Unit {0}) → Program A) (streams : Streams)
      → Read id s streams
      → Transition s event t
      → ((u : Streams) → Later streams u → Read id t u → Ensures accepts Q (k (ok tt)) u)
      → ((e : Failure) (u : Streams) → Later streams u → Ensures accepts Q (k (err e)) u)
      → Ensures accepts Q (Program.append id s.version (event ∷ []) k) streams
  append-Transition id s t event k streams (events, h, i, p) step committed failed = λ v l. (
    λ u r.
        let a = append_events-Appended accepts id s.version (event ∷ []) v u r in
        let q = Prefix-trans events (streams id) (v id) p (l.0 id) in
        let (valid, g) = append_closing id event v u h i q step a l.1 in
        let m : Later streams u = (Grows-trans streams v u l.0 (Grows-of_Appended a), valid) in
        let now_at = Read-of_History id t u g (step.request.continuation_id ∙ i) in
        (valid, committed u m now_at, failed storage_error u m),
    λ e _. failed e v l,
    failed storage_error v l,
  )

-- The identifier of a state is that of the stream that it was read from.
pub Read-own :
    (id : ContinuationId) (s : ContinuationEnvelope) (streams : Streams)
    → Read id s streams
    → Read s.continuation_id s streams
Read-own id s streams (events, h, i, p) =
    (events, h, refl, subst (λ (j : Text). Prefix events (streams j)) (sym i) p)

pub Read-renamed :
    (id j : ContinuationId) (s : ContinuationEnvelope) (streams : Streams)
    → j ≡ id
    → Read j s streams
    → Read id s streams
Read-renamed id j s streams e r = subst (λ (x : Text). Read x s streams) e r

module _ (accepts : ContinuationEvent → Bool) {A : Type 0} (Q : Post A) where
  -- The append of a creation: it succeeds, its reply is lost, or it has no effect.
  pub append_first :
      (id : ContinuationId) (t : ContinuationEnvelope) (event : ContinuationEvent)
      (k : Result Failure (Unit {0}) → Program A) (streams : Streams)
      → Creation event t
      → event.continuation_id ≡ id
      → ((u : Streams) → Later streams u → Read id t u → Ensures accepts Q (k (ok tt)) u)
      → ((e : Failure) (u : Streams) → Later streams u → Ensures accepts Q (k (err e)) u)
      → Ensures accepts Q (Program.append id 0 (event ∷ []) k) streams
  append_first id t event k streams c i committed failed = λ v l. (
    λ u r.
        let a = append_events-Appended accepts id 0 (event ∷ []) v u r in
        let (valid, g) = append_creation id event v u c i a l.1 in
        let m : Later streams u = (Grows-trans streams v u l.0 (Grows-of_Appended a), valid) in
        let now_at = Read-of_History id t u g (c.identity ∙ i) in
        (valid, committed u m now_at, failed storage_error u m),
    λ e _. failed e v l,
    failed storage_error v l,
  )

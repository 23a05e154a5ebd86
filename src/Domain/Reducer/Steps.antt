-- ===== src/Domain/Reducer/Steps.antt =====
-- The transitions of domain/reducer.ts as relations, and that the reducer makes exactly these.
use pausemesh.Prelude.{ℕ, ◌+◌, ◌≡◌, refl, Option, none, some, ok, ◌∙◌, arith, ap}
use pausemesh.Prelude.Text.{Text, text_eq_iff}
use pausemesh.Json.{Json}
use pausemesh.Domain.Types.{ContinuationEnvelope, ContinuationStatus, Lifecycle, status, status_of}
use pausemesh.Domain.Events.{ContinuationEvent, EventBody}
use pausemesh.Domain.Reducer.{terminal, reduce_continuation}

-- The events that a terminal transition may have, and the state that each one leaves.
pub data Closes (at : Text) : EventBody → Lifecycle → Type 0 where
  resumes :
      {key : Text} {payload : Json}
      → Closes at (EventBody.resumed key payload) (Lifecycle.resumed at key payload)
  cancels :
      {reason : Option Text}
      → Closes at (EventBody.cancelled reason) (Lifecycle.cancelled at reason)
  expires : Closes at EventBody.expired (Lifecycle.expired at)

-- What no transition changes.
pub record SameRequest (s t : ContinuationEnvelope) : Type 0 where
  pub continuation_id : t.continuation_id ≡ s.continuation_id
  pub correlation_id : t.correlation_id ≡ s.correlation_id
  pub created_at : t.created_at ≡ s.created_at
  pub expires_at : t.expires_at ≡ s.expires_at
  pub payload : t.payload ≡ s.payload
  pub metadata : t.metadata ≡ s.metadata

-- A transition out of `s` by `event` into `t`.
pub record Transition (s : ContinuationEnvelope) (event : ContinuationEvent)
    (t : ContinuationEnvelope) : Type 0 where
  pub schema : event.schema_version ≡ 1
  pub identity : event.continuation_id ≡ s.continuation_id
  pub fence : event.version ≡ s.version + 1
  pub was_pending : status s ≡ ContinuationStatus.pending
  pub version : t.version ≡ event.version
  pub schema_after : t.schema_version ≡ 1
  pub request : SameRequest s t
  pub closes : Closes event.occurred_at event.body t.lifecycle

-- A creation by `event` of `t`.
pub record Creation (event : ContinuationEvent) (t : ContinuationEnvelope) : Type 0 where
  pub schema : event.schema_version ≡ 1
  pub identity : t.continuation_id ≡ event.continuation_id
  pub first : event.version ≡ 1
  pub version : t.version ≡ 1
  pub schema_after : t.schema_version ≡ 1
  pub created_at : t.created_at ≡ event.occurred_at
  pub hash : Text
  pub body : event.body ≡ EventBody.created t.correlation_id t.expires_at t.payload t.metadata hash
  pub lifecycle : t.lifecycle ≡ Lifecycle.pending hash

module _ (event : ContinuationEvent) (t : ContinuationEnvelope) where
  Creation-of_body :
      (b : EventBody) → event.body ≡ b → reduce_continuation none event ≡ ok t → Creation event t
  unfolding reduce_continuation
  Creation-of_body (EventBody.created c x p m h) e r = record {
    schema = ground arith;
    identity = ground arith;
    first = ground arith;
    version = ground arith;
    schema_after = ground arith;
    created_at = ground arith;
    hash = h;
    body = ground arith;
    lifecycle = ground arith;
  }
  Creation-of_body _ e r = ground arith

pub reduce-Creation :
    (event : ContinuationEvent) (t : ContinuationEnvelope)
    → reduce_continuation none event ≡ ok t
    → Creation event t
reduce-Creation event t r = Creation-of_body event t event.body refl r

module _ (s : ContinuationEnvelope) (event : ContinuationEvent) (t : ContinuationEnvelope) where
  Closes-of_body :
      (b : EventBody)
      → event.body ≡ b
      → reduce_continuation (some s) event ≡ ok t
      → Closes event.occurred_at event.body t.lifecycle
  unfolding reduce_continuation
  Closes-of_body (EventBody.created _ _ _ _ _) e r = ground arith
  Closes-of_body (EventBody.resumed k p) e r =
      let h : t.lifecycle ≡ Lifecycle.resumed event.occurred_at k p = ground arith in
      rw (e, h) resumes
  Closes-of_body (EventBody.cancelled c) e r =
      let h : t.lifecycle ≡ Lifecycle.cancelled event.occurred_at c = ground arith in
      rw (e, h) cancels
  Closes-of_body EventBody.expired e r =
      let h : t.lifecycle ≡ Lifecycle.expired event.occurred_at = ground arith in rw (e, h) expires

  pub reduce-Transition : reduce_continuation (some s) event ≡ ok t → Transition s event t
  unfolding reduce_continuation
  reduce-Transition r = record {
    schema = ground arith;
    identity = ground (arith, text_eq_iff s.continuation_id event.continuation_id);
    fence = ground arith;
    was_pending = ground arith;
    version = ground arith;
    schema_after = ground arith;
    request = record {
      continuation_id = ground arith;
      correlation_id = ground arith;
      created_at = ground arith;
      expires_at = ground arith;
      payload = ground arith;
      metadata = ground arith;
    };
    closes = Closes-of_body event.body refl r;
  }

module _ (event : ContinuationEvent) (t : ContinuationEnvelope) where
  pub reduce_of_Creation : Creation event t → reduce_continuation none event ≡ ok t
  unfolding reduce_continuation
  reduce_of_Creation c = ground (arith, c.lifecycle, c.body)

module _ (s : ContinuationEnvelope) (event : ContinuationEvent) (h : Text) where
  -- A closing event that fits a pending state is accepted.
  pub reduce_closing :
      {at : Text} {b : EventBody} {l : Lifecycle}
      → Closes at b l
      → event.occurred_at ≡ at
      → event.body ≡ b
      → s.lifecycle ≡ Lifecycle.pending h
      → event.schema_version ≡ 1
      → event.continuation_id ≡ s.continuation_id
      → event.version ≡ s.version + 1
      → reduce_continuation (some s) event ≡ ok (terminal s event.version l)
  unfolding reduce_continuation
  reduce_closing resumes a b p q i v =
      ground (arith, text_eq_iff s.continuation_id event.continuation_id)
  reduce_closing cancels a b p q i v =
      ground (arith, text_eq_iff s.continuation_id event.continuation_id)
  reduce_closing expires a b p q i v =
      ground (arith, text_eq_iff s.continuation_id event.continuation_id)

pub pending-lifecycle :
    (l : Lifecycle)
    → status_of l ≡ ContinuationStatus.pending
    → (h : Text) × (l ≡ Lifecycle.pending h)
pending-lifecycle (Lifecycle.pending h) e = (h, refl)
pending-lifecycle (Lifecycle.resumed a k p) e = cc
pending-lifecycle (Lifecycle.cancelled a r) e = cc
pending-lifecycle (Lifecycle.expired a) e = cc

module _ (s : ContinuationEnvelope) (event : ContinuationEvent) (t : ContinuationEnvelope) where
  terminal_of_Transition : Transition s event t → terminal s event.version t.lifecycle ≡ t
  unfolding terminal
  terminal_of_Transition h = ground (arith, h.request)

  pub reduce_of_Transition : Transition s event t → reduce_continuation (some s) event ≡ ok t
  reduce_of_Transition h =
      let (hash, p) = pending-lifecycle s.lifecycle h.was_pending in
      reduce_closing s event hash h.closes refl refl p h.schema h.identity h.fence
      ∙ ap ok (terminal_of_Transition h)

pub lifecycle-terminal :
    (s : ContinuationEnvelope) (version : ℕ) (l : Lifecycle) → (terminal s version l).lifecycle ≡ l
unfolding terminal
lifecycle-terminal s version l = refl

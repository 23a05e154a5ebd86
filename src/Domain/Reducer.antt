-- ===== src/Domain/Reducer.antt =====
-- domain/reducer.ts
pub mod Steps
pub mod Replay
use pausemesh.Prelude.{
  ℕ, ◌+◌, Option, none, some, List, [], ◌∷◌, Result, ok, err, ◌>>=◌, ◌>>◌, ◌==◌, if◌then◌else◌,
}
use pausemesh.Prelude.Text.{text_eq}
use pausemesh.Domain.Types.{
  ContinuationEnvelope, ContinuationStatus, Lifecycle, continuation_schema_version, status,
}
use pausemesh.Domain.Events.{ContinuationEvent, EventBody, EventType, type_of}
use pausemesh.Domain.Errors.{
  PauseMeshError, version_conflict, invalid_transition, id_mismatch, unsupported_schema_version,
}

-- `base` with the fields of the new status; the token hash of the pending state is dropped.
pub terminal : ContinuationEnvelope → ℕ → Lifecycle → ContinuationEnvelope
terminal state version lifecycle = record {
  schema_version = continuation_schema_version;
  continuation_id = state.continuation_id;
  correlation_id = state.correlation_id;
  version = version;
  created_at = state.created_at;
  expires_at = state.expires_at;
  payload = state.payload;
  metadata = state.metadata;
  lifecycle = lifecycle;
}

assert_event_identity : ContinuationEnvelope → ContinuationEvent → Result PauseMeshError (Unit {0})
assert_event_identity state event =
    if text_eq state.continuation_id event.continuation_id
    then ok tt
    else err (id_mismatch state.continuation_id event.continuation_id)

-- `state?.version ?? 0`
abbrev pub version_of : Option ContinuationEnvelope → ℕ
version_of none = 0
version_of (some state) = state.version

assert_version : Option ContinuationEnvelope → ContinuationEvent → Result PauseMeshError (Unit {0})
assert_version state event =
    let expected_version = version_of state + 1 in
    if event.version == expected_version
    then ok tt
    else err (version_conflict event.continuation_id expected_version event.version)

-- The branch of an absent state.
create : ContinuationEvent → EventBody → Result PauseMeshError ContinuationEnvelope
create event (EventBody.created correlation_id expires_at payload metadata hash) = ok (record {
  schema_version = continuation_schema_version;
  continuation_id = event.continuation_id;
  correlation_id = correlation_id;
  version = event.version;
  created_at = event.occurred_at;
  expires_at = expires_at;
  payload = payload;
  metadata = metadata;
  lifecycle = Lifecycle.pending hash;
})
create event body = err (invalid_transition event.continuation_id none (type_of body))

-- The switch on the event's type, in a pending state.
finish :
    ContinuationEnvelope
    → ContinuationEvent
    → EventBody
    → Result PauseMeshError ContinuationEnvelope
unfolding terminal
finish state event (EventBody.created _ _ _ _ _) =
    err (invalid_transition state.continuation_id (some (status state)) EventType.created)
finish state event (EventBody.resumed key payload) =
    ok (terminal state event.version (Lifecycle.resumed event.occurred_at key payload))
finish state event (EventBody.cancelled reason) =
    ok (terminal state event.version (Lifecycle.cancelled event.occurred_at reason))
finish state event EventBody.expired =
    ok (terminal state event.version (Lifecycle.expired event.occurred_at))

-- `assertPending`, and the tests before it: a creation event is refused in every state.
advance :
    ContinuationEnvelope
    → ContinuationEvent
    → Lifecycle
    → Result PauseMeshError ContinuationEnvelope
unfolding finish
advance state event (Lifecycle.pending hash) = finish state event event.body
advance state event lifecycle =
    err (invalid_transition state.continuation_id (some (status state)) (type_of event.body))

checked :
    Option ContinuationEnvelope → ContinuationEvent → Result PauseMeshError ContinuationEnvelope
unfolding assert_event_identity assert_version create advance
checked none event = do assert_version none event; create event event.body
checked (some state) event = do
  assert_event_identity state event
  assert_version (some state) event
  advance state event state.lifecycle

unfoldable pub reduce_continuation :
    Option ContinuationEnvelope → ContinuationEvent → Result PauseMeshError ContinuationEnvelope
unfolding checked
reduce_continuation state event =
    if event.schema_version == continuation_schema_version
    then checked state event
    else err (unsupported_schema_version event.schema_version)

-- `events.reduce(reduceContinuation, state)`
replay_from :
    Option ContinuationEnvelope
    → List ContinuationEvent
    → Result PauseMeshError (Option ContinuationEnvelope)
replay_from state [] = ok state
replay_from state (event ∷ events) = do
  next ← reduce_continuation state event
  replay_from (some next) events

unfoldable pub replay_continuation :
    List ContinuationEvent → Result PauseMeshError (Option ContinuationEnvelope)
unfolding replay_from
replay_continuation events = replay_from none events

-- ===== src/Service/Expiry.antt =====
-- The transition events of the service, and its lazy expiry `#expireIfDue`.
use pausemesh.Prelude.{◌+◌, some, [], ◌∷◌, if◌then◌else◌}
use pausemesh.Prelude.Text.{Text}
use pausemesh.Domain.Types.{
  ContinuationId, ContinuationEnvelope, ContinuationStatus, Lifecycle, status,
  continuation_schema_version,
}
use pausemesh.Domain.Events.{ContinuationEvent, EventBody}
use pausemesh.Domain.Reducer.{reduce_continuation}
use pausemesh.Ports.Failure.{Failure, is_version_conflict}
use pausemesh.Ports.Platform.{Date, Platform, date_lt}
use pausemesh.Ports.Observer.{ContinuationObservation}
use pausemesh.Service.Program.{
  Program, ◌>>=◌, ◌>>◌, attempt, append_or_fail, read_clock, notify, lift_domain, iso_string,
}
use pausemesh.Service.Lookup.{load_required}

-- `state` with `event` applied, announced to the observer.
unfoldable pub transitioned :
    ContinuationEnvelope → ContinuationEvent → ContinuationStatus → Program ContinuationEnvelope
transitioned state event status = do
  next ← lift_domain (reduce_continuation (some state) event)
  notify (
      ContinuationObservation.transitioned next.continuation_id event.occurred_at status
        next.version)
  Program.done next

-- The event that closes `state` at the text `at`.
abbrev pub closing_event :
    ContinuationId → ContinuationEnvelope → Text → EventBody → ContinuationEvent
closing_event id state at body = record {
  schema_version = continuation_schema_version;
  continuation_id = id;
  version = state.version + 1;
  occurred_at = at;
  body = body;
}

unfoldable pub append_expiry :
    ContinuationEnvelope → ContinuationEvent → Program ContinuationEnvelope
append_expiry state event = do
  append_or_fail state.continuation_id state.version (event ∷ [])
  transitioned state event ContinuationStatus.expired

unfoldable pub reload_on_conflict : ContinuationId → Failure → Program ContinuationEnvelope
reload_on_conflict id error =
    if is_version_conflict error then load_required id else Program.fail error

module _ (platform : Platform) where
  unfoldable pub expire_pending : Date → ContinuationEnvelope → Program ContinuationEnvelope
  expire_pending t state = do
    at ← iso_string platform t
    attempt (append_expiry state (closing_event state.continuation_id state at EventBody.expired))
        (reload_on_conflict state.continuation_id)

  unfoldable pub expire_by : Date → ContinuationEnvelope → Lifecycle → Program ContinuationEnvelope
  expire_by t state (Lifecycle.pending hash) =
      if date_lt t (platform.parse_date state.expires_at)
      then Program.done state
      else expire_pending t state
  expire_by t state lifecycle = Program.done state

  unfoldable pub expire_if_due : Date → ContinuationEnvelope → Program ContinuationEnvelope
  expire_if_due t state = expire_by t state state.lifecycle

  -- The method with its default argument.
  unfoldable pub expire_if_due_now : ContinuationEnvelope → Program ContinuationEnvelope
  expire_if_due_now state = do t ← read_clock; expire_if_due t state

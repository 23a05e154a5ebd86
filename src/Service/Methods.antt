-- ===== src/Service/Methods.antt =====
-- The methods of `ContinuationService`. Every method is a program over the ports.
use pausemesh.Prelude.{ℕ, Option, none, some, List, [], ◌∷◌, Result, ok, err, if◌then◌else◌}
use pausemesh.Prelude.Text.{Text}
use pausemesh.Json.{Entries}
use pausemesh.Domain.Types.{
  ContinuationId, ContinuationEnvelope, ContinuationStatus, Lifecycle, continuation_schema_version,
}
use pausemesh.Domain.Events.{ContinuationEvent, EventBody, EventType}
use pausemesh.Domain.Errors.{
  PauseMeshError, not_found, version_conflict, invalid_transition, token_already_used,
}
use pausemesh.Domain.Reducer.{reduce_continuation}
use pausemesh.Ports.Failure.{Failure, internal_error, range_error, is_version_conflict}
use pausemesh.Ports.Platform.{Date, Platform, date_plus, date_le}
use pausemesh.Ports.Observer.{ContinuationObservation}
use pausemesh.Service.Program.{
  Program, ◌>>=◌, ◌>>◌, load_events, append_or_fail, read_clock, notify, lift_domain, iso_string,
}
use pausemesh.Service.Inputs.{
  CreateContinuationInput, CreatedContinuation, ResumeContinuationInput, CancelContinuationInput,
  fence,
}
use pausemesh.Service.Lookup.{
  or_generated, or_default, fail_domain, load_required, load_resume_context,
}
use pausemesh.Service.Outcomes.{
  resolve_completed_resume, resolve_completed_cancellation, require_matching_token,
}
use pausemesh.Service.Expiry.{transitioned, closing_event, expire_if_due, expire_if_due_now}

unfoldable pub resumable : ContinuationEnvelope → Lifecycle → Program ContinuationEnvelope
resumable current (Lifecycle.pending hash) = Program.done current
resumable current (Lifecycle.expired at) =
    fail_domain (PauseMeshError.expired current.continuation_id)
resumable current (Lifecycle.cancelled at reason) =
    fail_domain (PauseMeshError.cancelled current.continuation_id)
resumable current (Lifecycle.resumed at key payload) =
    fail_domain (token_already_used current.continuation_id)

unfoldable pub resolved_or_fail :
    Failure → Option ContinuationEnvelope → Program ContinuationEnvelope
resolved_or_fail error none = Program.fail error
resolved_or_fail error (some outcome) = Program.done outcome

-- The read again of `cancel` after a version conflict.
unfoldable pub cancelled_again :
    CancelContinuationInput
    → Failure
    → ContinuationEnvelope
    → Lifecycle
    → Program ContinuationEnvelope
cancelled_again input error current (Lifecycle.cancelled at reason) =
    lift_domain (resolve_completed_cancellation current reason input)
cancelled_again input error current (Lifecycle.expired at) =
    fail_domain (PauseMeshError.expired input.continuation_id)
cancelled_again input error current lifecycle = Program.fail error

unfoldable pub cancel_conflict : CancelContinuationInput → Failure → Program ContinuationEnvelope
cancel_conflict input error = do
  current ← load_required input.continuation_id
  cancelled_again input error current current.lifecycle

unfoldable pub after_cancel_append :
    CancelContinuationInput
    → ContinuationEnvelope
    → ContinuationEvent
    → Result Failure (Unit {0})
    → Program ContinuationEnvelope
after_cancel_append input state event (ok done) =
    transitioned state event ContinuationStatus.cancelled
after_cancel_append input state event (err error) =
    if is_version_conflict error then cancel_conflict input error else Program.fail error

unfoldable pub created_pending :
    Text → ContinuationEnvelope → Lifecycle → Program CreatedContinuation
created_pending token continuation (Lifecycle.pending hash) = do
  notify (
      ContinuationObservation.created continuation.continuation_id continuation.correlation_id
        continuation.created_at continuation.version)
  Program.done (record { continuation = continuation; resume_token = token })
created_pending token continuation lifecycle = Program.fail internal_error

-- The event of a creation.
abbrev pub creation_event :
    CreateContinuationInput
    → ContinuationId
    → (correlation_id occurred_at expires_at hash : Text) → ContinuationEvent
creation_event input id correlation_id occurred_at expires_at hash = record {
  schema_version = continuation_schema_version;
  continuation_id = id;
  version = 1;
  occurred_at = occurred_at;
  body =
      EventBody.created correlation_id expires_at input.payload
        (or_default input.metadata Entries.end) hash;
}

unfoldable pub append_creation :
    ContinuationId → ContinuationEvent → Text → Program CreatedContinuation
append_creation id event token = do
  append_or_fail id 0 (event ∷ [])
  continuation ← lift_domain (reduce_continuation none event)
  created_pending token continuation continuation.lifecycle

module _ (platform : Platform) where
  unfoldable pub require_resumable : ContinuationEnvelope → Program ContinuationEnvelope
  require_resumable continuation = do
    current ← expire_if_due_now platform continuation
    resumable current current.lifecycle

  -- The read again of `resume` after a version conflict.
  unfoldable pub resolve_again : ResumeContinuationInput → Failure → Program ContinuationEnvelope
  resolve_again input error = do
    current ← load_resume_context input.continuation_id
    require_matching_token platform input.continuation_id current.resume_token_hash
        input.resume_token
    resolved ← lift_domain (resolve_completed_resume current.continuation input)
    resolved_or_fail error resolved

  -- What follows the append in `resume`.
  unfoldable pub after_resume_append :
      ResumeContinuationInput
      → ContinuationEnvelope
      → ContinuationEvent
      → Result Failure (Unit {0})
      → Program ContinuationEnvelope
  after_resume_append input state event (ok done) =
      transitioned state event ContinuationStatus.resumed
  after_resume_append input state event (err error) =
      if is_version_conflict error then resolve_again input error else Program.fail error

  unfoldable pub resume_pending :
      ResumeContinuationInput → ContinuationEnvelope → Program ContinuationEnvelope
  resume_pending input state = do
    t ← read_clock
    at ← iso_string platform t
    let event =
        closing_event input.continuation_id state at
          (EventBody.resumed input.idempotency_key input.resume_payload)
    Program.append input.continuation_id state.version (event ∷ [])
        (after_resume_append input state event)

  unfoldable pub resume_unless_replayed :
      ResumeContinuationInput
      → ContinuationEnvelope
      → Option ContinuationEnvelope
      → Program ContinuationEnvelope
  resume_unless_replayed input continuation (some outcome) = Program.done outcome
  resume_unless_replayed input continuation none = do
    state ← require_resumable continuation
    resume_pending input state

  unfoldable pub resume : ResumeContinuationInput → Program ContinuationEnvelope
  resume input = do
    context ← load_resume_context input.continuation_id
    require_matching_token platform input.continuation_id context.resume_token_hash
        input.resume_token
    replayed ← lift_domain (resolve_completed_resume context.continuation input)
    resume_unless_replayed input context.continuation replayed

  unfoldable pub cancel_pending :
      CancelContinuationInput → Date → ContinuationEnvelope → Program ContinuationEnvelope
  cancel_pending input t state = do
    at ← iso_string platform t
    let event = closing_event input.continuation_id state at (EventBody.cancelled input.reason)
    Program.append input.continuation_id state.version (event ∷ [])
        (after_cancel_append input state event)

  -- The expected version, where it is not the version of the state, stops a cancellation.
  unfoldable pub cancel_fenced :
      CancelContinuationInput
      → Date
      → ContinuationEnvelope
      → Option ℕ
      → Program ContinuationEnvelope
  cancel_fenced input t state none = cancel_pending input t state
  cancel_fenced input t state (some expected) =
      fail_domain (version_conflict input.continuation_id expected state.version)

  -- The branches of `cancel` on the state after the expiry check.
  unfoldable pub cancel_current :
      CancelContinuationInput
      → Date
      → ContinuationEnvelope
      → Lifecycle
      → Program ContinuationEnvelope
  cancel_current input t state (Lifecycle.cancelled at reason) =
      lift_domain (resolve_completed_cancellation state reason input)
  cancel_current input t state (Lifecycle.expired at) =
      fail_domain (PauseMeshError.expired input.continuation_id)
  cancel_current input t state (Lifecycle.resumed at key payload) = fail_domain (
      invalid_transition input.continuation_id (some ContinuationStatus.resumed)
        EventType.cancelled)
  cancel_current input t state (Lifecycle.pending hash) =
      cancel_fenced input t state (fence input.expected_version state.version)

  unfoldable pub cancel_loaded :
      CancelContinuationInput → ContinuationEnvelope → Lifecycle → Program ContinuationEnvelope
  cancel_loaded input loaded (Lifecycle.cancelled at reason) =
      lift_domain (resolve_completed_cancellation loaded reason input)
  cancel_loaded input loaded lifecycle = do
    t ← read_clock
    state ← expire_if_due platform t loaded
    cancel_current input t state state.lifecycle

  unfoldable pub cancel : CancelContinuationInput → Program ContinuationEnvelope
  cancel input = do
    loaded ← load_required input.continuation_id
    cancel_loaded input loaded loaded.lifecycle

  unfoldable pub inspect : ContinuationId → Program ContinuationEnvelope
  inspect id = do continuation ← load_required id; expire_if_due_now platform continuation

  -- The creation after the check of `expiresAt`.
  unfoldable pub create_until :
      CreateContinuationInput → ContinuationId → Text → Date → Date → Program CreatedContinuation
  create_until input id correlation_id t expires_at = do
    issued ← Program.issue Program.done
    occurred_at ← iso_string platform t
    expires ← iso_string platform expires_at
    let event = creation_event input id correlation_id occurred_at expires issued.token_hash
    append_creation id event issued.token

  unfoldable pub create : ℕ → CreateContinuationInput → Program CreatedContinuation
  create ttl input = do
    t ← read_clock
    id ← or_generated input.continuation_id
    correlation_id ← or_generated input.correlation_id
    let expires_at = or_default input.expires_at (date_plus t ttl)
    if date_le expires_at t
        then Program.fail range_error
        else create_until input id correlation_id t expires_at

unfoldable pub some_history :
    ContinuationId → List ContinuationEvent → Program (List ContinuationEvent)
some_history id [] = fail_domain (not_found id)
some_history id events = Program.done events

unfoldable pub history : ContinuationId → Program (List ContinuationEvent)
history id = do events ← load_events id; some_history id events

-- ===== src/Service/Outcomes.antt =====
-- What the service answers to a repeated call: `#resolveCompletedResume`,
-- `#resolveCompletedCancellation`; and to a wrong token: `#requireMatchingToken`.
use pausemesh.Prelude.{◌+◌, not, Option, none, some, Result, ok, err, ◌==◌, if◌then◌else◌}
use pausemesh.Prelude.Text.{Text, text_eq}
use pausemesh.Json.Canonical.{canonical_json}
use pausemesh.Domain.Types.{ContinuationId, ContinuationEnvelope, ContinuationStatus, Lifecycle}
use pausemesh.Domain.Events.{EventType}
use pausemesh.Domain.Errors.{
  PauseMeshError, PauseMeshErrorCode, version_conflict, invalid_transition, token_mismatch,
  token_already_used, idempotency_conflict,
}
use pausemesh.Ports.Platform.{Platform}
use pausemesh.Ports.Observer.{ContinuationObservation}
use pausemesh.Service.Program.{Program, ◌>>=◌, ◌>>◌, read_clock, notify, iso_string}
use pausemesh.Service.Token.{token_hashes_equal}
use pausemesh.Service.Inputs.{ResumeContinuationInput, CancelContinuationInput, option_text_eq}
use pausemesh.Service.Lookup.{fail_domain}

unfoldable pub resumed_outcome :
    ContinuationEnvelope
    → ResumeContinuationInput
    → Lifecycle
    → Result PauseMeshError (Option ContinuationEnvelope)
resumed_outcome continuation input (Lifecycle.resumed at key payload) =
    if text_eq key input.idempotency_key
    then if text_eq (canonical_json payload) (canonical_json input.resume_payload)
      then ok (some continuation)
      else err (idempotency_conflict input.continuation_id)
    else err (token_already_used input.continuation_id)
resumed_outcome continuation input lifecycle = ok none

-- The recorded outcome of a resume, if there is one that fits the input.
unfoldable pub resolve_completed_resume :
    ContinuationEnvelope
    → ResumeContinuationInput
    → Result PauseMeshError (Option ContinuationEnvelope)
resolve_completed_resume continuation input =
    resumed_outcome continuation input continuation.lifecycle

-- The recorded outcome of a cancellation for this reason.
unfoldable pub resolve_completed_cancellation :
    ContinuationEnvelope
    → Option Text
    → CancelContinuationInput
    → Result PauseMeshError ContinuationEnvelope
resolve_completed_cancellation continuation reason input =
    if not (option_text_eq reason input.reason)
    then err (
        invalid_transition input.continuation_id (some ContinuationStatus.cancelled)
          EventType.cancelled)
    else elim input.expected_version [
      | none ↦ ok continuation
      | some expected ↦
          if continuation.version == expected + 1
          then ok continuation
          else err (version_conflict input.continuation_id expected continuation.version)
    ]

module _ (platform : Platform) where
  unfoldable pub reject : ContinuationId → PauseMeshErrorCode → Program (Unit {0})
  reject id code = do
    t ← read_clock
    observed_at ← iso_string platform t
    notify (ContinuationObservation.rejected id observed_at code)

  unfoldable pub require_matching_token : ContinuationId → Text → Text → Program (Unit {0})
  require_matching_token id expected_hash token =
      if token_hashes_equal expected_hash (platform.hash_token token)
      then Program.done tt
      else do reject id PauseMeshErrorCode.token_mismatch; fail_domain (token_mismatch id)

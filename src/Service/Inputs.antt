-- ===== src/Service/Inputs.antt =====
-- What the methods of the service take and return, and the check of its constructor.
use pausemesh.Prelude.{
  ℕ, ◌*◌, Bool, true, false, not, ◌||◌, Option, none, some, Result, ok, err, leb, ◌==◌,
  if◌then◌else◌,
}
use pausemesh.Prelude.Text.{Text, text_eq}
use pausemesh.Json.{Json, JsonObject}
use pausemesh.Domain.Types.{ContinuationId, ContinuationEnvelope, max_safe_integer}
use pausemesh.Ports.Failure.{Failure, range_error}
use pausemesh.Ports.Platform.{Date}

pub record CreateContinuationInput : Type 0 where
  pub continuation_id : Option ContinuationId
  pub correlation_id : Option Text
  pub expires_at : Option Date
  pub metadata : Option JsonObject
  pub payload : Json

pub record CreatedContinuation : Type 0 where
  pub continuation : ContinuationEnvelope
  pub resume_token : Text

pub record ResumeContinuationInput : Type 0 where
  pub continuation_id : ContinuationId
  pub idempotency_key : Text
  pub resume_payload : Json
  pub resume_token : Text

pub record CancelContinuationInput : Type 0 where
  pub continuation_id : ContinuationId
  pub expected_version : Option ℕ
  pub reason : Option Text

pub record ResumeContext : Type 0 where
  pub continuation : ContinuationEnvelope
  pub resume_token_hash : Text

-- The constructor's check of `tokenTtlSeconds`; the value is the time to live in milliseconds.
unfoldable pub token_ttl_milliseconds : ℕ → Result Failure ℕ
token_ttl_milliseconds seconds =
    let milliseconds = seconds * 1000 in
    if not (leb milliseconds max_safe_integer) || milliseconds == 0
    then err range_error
    else ok milliseconds

-- `left === right` on optional texts.
abbrev pub option_text_eq : Option Text → Option Text → Bool
option_text_eq none none = true
option_text_eq (some s) (some t) = text_eq s t
option_text_eq _ _ = false

-- The expected version, if there is one and the actual version is another.
abbrev pub fence : Option ℕ → ℕ → Option ℕ
fence none actual = none
fence (some expected) actual = if actual == expected then none else some expected

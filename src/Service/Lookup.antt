-- ===== src/Service/Lookup.antt =====
-- The reads of the service: `#loadRequired` and `#loadResumeContext`.
use pausemesh.Prelude.{Option, none, some, List, [], ◌∷◌}
use pausemesh.Prelude.Text.{Text}
use pausemesh.Domain.Types.{ContinuationId, ContinuationEnvelope}
use pausemesh.Domain.Events.{ContinuationEvent, EventBody}
use pausemesh.Domain.Errors.{PauseMeshError, not_found}
use pausemesh.Domain.Reducer.{replay_continuation}
use pausemesh.Ports.Failure.{domain, internal_error}
use pausemesh.Service.Program.{Program, ◌>>=◌, load_events, lift_domain}
use pausemesh.Service.Inputs.{ResumeContext}

abbrev pub or_generated : Option Text → Program Text
or_generated none = Program.generate_id Program.done
or_generated (some id) = Program.done id

abbrev pub or_default {ℓ} : {A : Type ℓ} → Option A → A → A
or_default none a = a
or_default (some a) b = a

abbrev pub fail_domain : {A : Type 0} → PauseMeshError → Program A
fail_domain e = Program.fail (domain e)

unfoldable pub found_or_fail :
    ContinuationId → Option ContinuationEnvelope → Program ContinuationEnvelope
found_or_fail id none = fail_domain (not_found id)
found_or_fail id (some state) = Program.done state

unfoldable pub load_required : ContinuationId → Program ContinuationEnvelope
load_required id = do
  events ← load_events id
  state ← lift_domain (replay_continuation events)
  found_or_fail id state

unfoldable pub body_hash : EventBody → Program Text
body_hash (EventBody.created correlation_id expires_at payload metadata hash) = Program.done hash
body_hash _ = Program.fail internal_error

-- The token hash of the first event, which must be a creation.
unfoldable pub created_hash : List ContinuationEvent → Program Text
created_hash [] = Program.fail internal_error
created_hash (event ∷ events) = body_hash event.body

unfoldable pub load_resume_context : ContinuationId → Program ResumeContext
load_resume_context id = do
  events ← load_events id
  state ← lift_domain (replay_continuation events)
  continuation ← found_or_fail id state
  hash ← created_hash events
  Program.done (record { continuation = continuation; resume_token_hash = hash })

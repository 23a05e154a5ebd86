-- ===== src/Service/Samples.antt =====
-- Concrete inputs of the service, and a platform and a store for its runs.
use pausemesh.Prelude.{Bool, ℕ, refl, true, none, some, List, [], ◌∷◌, inl}
use pausemesh.Prelude.Text.{Text, codes, text_eq}
use pausemesh.Json.{Json, Entries}
use pausemesh.Json.Canonical.{canonical_json}
use pausemesh.Json.Quote.{quote}
use pausemesh.Domain.Types.{ContinuationEnvelope, Lifecycle}
use pausemesh.Domain.Events.{ContinuationEvent}
use pausemesh.Domain.Reducer.{reduce_continuation, replay_continuation}
use pausemesh.Ports.Platform.{Date, Platform}
use pausemesh.Ports.EventStore.{Streams, append_events, check_batch}
use pausemesh.Ports.EventStore.Streams.{IsValid}
use pausemesh.Service.Token.{token_hashes_equal, is_token_hash, hex_bytes, hex_value}
use pausemesh.Service.Program.{◌>>=◌, attempt}
use pausemesh.Service.Inputs.{CreateContinuationInput, ResumeContinuationInput}
use pausemesh.Service.Lookup.{
  found_or_fail, load_required, body_hash, created_hash, load_resume_context,
}
use pausemesh.Service.Outcomes.{
  resumed_outcome, resolve_completed_resume, resolve_completed_cancellation, reject,
  require_matching_token,
}
use pausemesh.Service.Expiry.{
  transitioned, append_expiry, reload_on_conflict, expire_pending, expire_by, expire_if_due,
  expire_if_due_now,
}
use pausemesh.Service.Methods.{
  resumable, require_resumable, resolved_or_fail, resolve_again, after_resume_append,
  resume_pending, resume_unless_replayed, resume, cancelled_again, cancel_conflict,
  after_cancel_append, cancel_pending, cancel_fenced, cancel_current, cancel_loaded, cancel,
  created_pending, append_creation, create_until, create,
}
use pausemesh.Service.Calls.{Call, creates, resumes_with, Reply, serve}
use pausemesh.Service.Interleaving.{Fault, Input, Pool, step, turn, run}
use pausemesh.Service.Exclusive.{started}

abbrev pub read_time : Text → Date
read_time [] = none
read_time (t ∷ rest) = some t

abbrev pub test_platform : Platform
test_platform = record {
  iso_text = λ t. t ∷ [];
  parse_date = read_time;
  hash_token = λ token. token;
  parse_date-iso_text = λ t h. refl;
}

abbrev pub any_event : ContinuationEvent → Bool
any_event e = true

abbrev pub empty_store : Streams
empty_store id = []

pub empty_store-IsValid : IsValid empty_store
empty_store-IsValid id = inl refl

abbrev pub token : Text
token = codes "00112233445566778899aabbccddeeff00112233445566778899AABBCCDDEEFF"

abbrev pub at : ℕ → Input
at t = record {
  time = some t;
  token = record { token = token; token_hash = token };
  fresh_id = codes "fresh";
  fault = Fault.no_fault;
}

abbrev pub creation : CreateContinuationInput
creation = record {
  continuation_id = some (codes "c");
  correlation_id = none;
  expires_at = none;
  metadata = none;
  payload = Json.str (codes "question");
}

abbrev pub answer : ResumeContinuationInput
answer = record {
  continuation_id = codes "c";
  idempotency_key = codes "k";
  resume_payload = Json.bool true;
  resume_token = token;
}

abbrev pub calls : List Call
calls = creates creation ∷ resumes_with answer ∷ resumes_with answer ∷ []

-- The creation, then two resumes with their reads before the first append.
abbrev pub schedule : List (ℕ × Input)
schedule =
    (0, at 5)
    ∷ (0, at 5)
    ∷ (0, at 5)
    ∷ (0, at 5)
    ∷ (0, at 5)
    ∷ (1, at 6)
    ∷ (2, at 6)
    ∷ (1, at 6)
    ∷ (2, at 6)
    ∷ (1, at 7)
    ∷ (2, at 8)
    ∷ (1, at 9)
    ∷ (2, at 9)
    ∷ (1, at 9)
    ∷ (2, at 9)
    ∷ []

abbrev pub resumed_state : ContinuationEnvelope
resumed_state = record {
  schema_version = 1;
  continuation_id = codes "c";
  correlation_id = codes "fresh";
  version = 2;
  created_at = 5 ∷ [];
  expires_at = 1005 ∷ [];
  payload = Json.str (codes "question");
  metadata = Entries.end;
  lifecycle = Lifecycle.resumed (7 ∷ []) (codes "k") (Json.bool true);
}

abbrev pub finished : Pool Call Reply
finished = run any_event schedule (started test_platform 1000 any_event calls empty_store)

-- One unfolding line for the runs.
unfoldable pub whole_service : ℕ
unfolding text_eq canonical_json quote reduce_continuation replay_continuation append_events
    check_batch token_hashes_equal is_token_hash hex_bytes hex_value ◌>>=◌ attempt found_or_fail
    load_required body_hash created_hash load_resume_context resumed_outcome
    resolve_completed_resume resolve_completed_cancellation reject require_matching_token
    transitioned append_expiry reload_on_conflict expire_pending expire_by expire_if_due
    expire_if_due_now resumable require_resumable resolved_or_fail resolve_again after_resume_append
    resume_pending resume_unless_replayed resume cancelled_again cancel_conflict after_cancel_append
    cancel_pending cancel_fenced cancel_current cancel_loaded cancel created_pending append_creation
    create_until create serve step turn run
whole_service = 0

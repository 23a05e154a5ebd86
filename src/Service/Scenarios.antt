-- ===== src/Service/Scenarios.antt =====
-- Runs of the service on concrete inputs, and its theorems at these runs.
use pausemesh.Prelude.{◌++◌, get_elem?, arith, ◌↔◌, ℕ, ◌≡◌, refl, true, some, List, [], ◌∷◌, ok}
use pausemesh.Prelude.Text.{Text, codes}
use pausemesh.Json.Canonical.{canonical_json}
use pausemesh.Domain.Types.{ContinuationEnvelope, Lifecycle}
use pausemesh.Domain.Reducer.{replay_continuation}
use pausemesh.Ports.EventStore.Streams.{IsValid}
use pausemesh.Service.Token.{lower_all, token_hashes_equal_iff, token_hashes_equal, is_token_hash}
use pausemesh.Service.Program.{Program}
use pausemesh.Service.Inputs.{CreatedContinuation, CancelContinuationInput}
use pausemesh.Service.Calls.{Call, creates, resumes_with, cancels_with, Reply, issued, envelope}
use pausemesh.Service.Interleaving.{Fault, Input, Pool, run}
use pausemesh.Service.Resuming.{IsOutcome, IsAuthorized}
use pausemesh.Service.Cancelling.{IsCancellation}
use pausemesh.Service.Creating.{IsCreated}
use pausemesh.Service.Progress.{HasEnded, run-HasEnded}
use pausemesh.Service.Exclusive.{
  started, Answered, run-IsValid, resume-IsDurable, resume-IsExclusive, resume-excludes-cancel,
  cancel-IsDurable, create-IsRecorded,
}
use pausemesh.Service.Settled.{IsSince}
use pausemesh.Service.Samples.{
  test_platform, any_event, empty_store, empty_store-IsValid, token, at, creation, answer, calls,
  schedule, resumed_state, finished, whole_service,
}

first_resume :
    Answered test_platform 1000 any_event finished 1 (resumes_with answer) (envelope resumed_state)
unfolding whole_service
first_resume = refl

second_resume :
    Answered test_platform 1000 any_event finished 2 (resumes_with answer) (envelope resumed_state)
unfolding whole_service
second_resume = refl

abbrev pending_state : ContinuationEnvelope
pending_state = record resumed_state { version = 1; lifecycle = Lifecycle.pending token }

abbrev receipt : CreatedContinuation
receipt = record { continuation = pending_state; resume_token = token }

creation-Answered :
    Answered test_platform 1000 any_event finished 0 (creates creation) (issued receipt)
unfolding whole_service
creation-Answered = refl

create-IsRecorded_example :
    IsCreated test_platform creation pending_state
    × ((s : ContinuationEnvelope) × (replay_continuation (finished.streams (codes "c"))
          ≡ ok (some s))
        × IsSince pending_state s)
create-IsRecorded_example =
    create-IsRecorded test_platform 1000 any_event calls schedule empty_store empty_store-IsValid 0
      creation receipt creation-Answered

run-IsValid_example : IsValid finished.streams
run-IsValid_example =
    run-IsValid test_platform 1000 any_event calls schedule empty_store empty_store-IsValid

resume-IsDurable_example :
    (replay_continuation (finished.streams (codes "c")) ≡ ok (some resumed_state))
    × IsOutcome answer resumed_state
    × IsAuthorized test_platform (codes "c") token finished.streams
resume-IsDurable_example =
    resume-IsDurable test_platform 1000 any_event calls schedule empty_store empty_store-IsValid 2
      answer resumed_state second_resume

resume-IsExclusive_example :
    (resumed_state ≡ resumed_state)
    × (answer.idempotency_key ≡ answer.idempotency_key)
    × (canonical_json answer.resume_payload ≡ canonical_json answer.resume_payload)
resume-IsExclusive_example =
    resume-IsExclusive test_platform 1000 any_event calls schedule empty_store empty_store-IsValid 1
      2 answer answer resumed_state resumed_state refl first_resume second_resume

abbrev withdrawal : CancelContinuationInput
withdrawal = record {
  continuation_id = codes "c";
  expected_version = some 1;
  reason = some (codes "no longer needed");
}

abbrev cancelled_state : ContinuationEnvelope
cancelled_state = record resumed_state {
  lifecycle = Lifecycle.cancelled (6 ∷ []) (some (codes "no longer needed"));
}

-- The cancellation commits first, and its client answers.
abbrev cancelled_pool : Pool Call Reply
cancelled_pool =
    run any_event
      ((0, at 5)
        ∷ (0, at 5)
        ∷ (0, at 5)
        ∷ (0, at 5)
        ∷ (0, at 5)
        ∷ (1, at 6)
        ∷ (1, at 6)
        ∷ (1, at 6)
        ∷ (1, at 6)
        ∷ [])
      (started test_platform 1000 any_event (creates creation ∷ cancels_with withdrawal ∷ [])
        empty_store)

cancellation :
    Answered test_platform 1000 any_event cancelled_pool 1
      (cancels_with withdrawal)
      (envelope cancelled_state)
unfolding whole_service
cancellation = refl

cancel-IsDurable_example :
    (replay_continuation (cancelled_pool.streams (codes "c")) ≡ ok (some cancelled_state))
    × IsCancellation withdrawal cancelled_state
cancel-IsDurable_example =
    cancel-IsDurable test_platform 1000 any_event (creates creation ∷ cancels_with withdrawal ∷ [])
      ((0, at 5)
        ∷ (0, at 5)
        ∷ (0, at 5)
        ∷ (0, at 5)
        ∷ (0, at 5)
        ∷ (1, at 6)
        ∷ (1, at 6)
        ∷ (1, at 6)
        ∷ (1, at 6)
        ∷ [])
      empty_store empty_store-IsValid 1 withdrawal cancelled_state cancellation

-- A resume and a cancellation race: the cancellation reads the pending state, and the resume
-- appends first.
abbrev contest : List Call
contest = creates creation ∷ resumes_with answer ∷ cancels_with withdrawal ∷ []

abbrev race : List (ℕ × Input)
race =
    (0, at 5)
    ∷ (0, at 5)
    ∷ (0, at 5)
    ∷ (0, at 5)
    ∷ (0, at 5)
    ∷ (2, at 6)
    ∷ (2, at 6)
    ∷ (1, at 6)
    ∷ (1, at 6)
    ∷ (1, at 7)
    ∷ (1, at 7)
    ∷ (1, at 7)
    ∷ (2, at 8)
    ∷ (2, at 8)
    ∷ (2, at 8)
    ∷ []

abbrev contested : Pool Call Reply
contested = run any_event race (started test_platform 1000 any_event contest empty_store)

contest_won :
    Answered test_platform 1000 any_event contested 1 (resumes_with answer) (envelope resumed_state)
unfolding whole_service
contest_won = refl

resume-excludes-cancel_example :
    ¬ Answered test_platform 1000 any_event contested 2
      (cancels_with withdrawal)
      (envelope cancelled_state)
resume-excludes-cancel_example =
    resume-excludes-cancel test_platform 1000 any_event contest race empty_store empty_store-IsValid
      1 2 answer withdrawal resumed_state cancelled_state refl contest_won

abbrev upper_token : Text
upper_token = codes "00112233445566778899AABBCCDDEEFF00112233445566778899aabbccddeeff"

token_hashes_equal_iff_example : (token_hashes_equal token upper_token ≡ true) ↔ (
    (is_token_hash token ≡ true)
    × (is_token_hash upper_token ≡ true)
    × (lower_all token ≡ lower_all upper_token))
token_hashes_equal_iff_example = token_hashes_equal_iff token upper_token

-- Three turns of the first resume, in which the store fails at times.
abbrev three : List (ℕ × Input)
three = (1, at 6) ∷ (1, record (at 6) { fault = Fault.reply_lost }) ∷ (0, at 6) ∷ (1, at 7) ∷ []

abbrev twelve : List (ℕ × Input)
twelve = three ++ three ++ three ++ three

run-HasEnded_example :
    (p : Program Reply) × (get_elem?
        (run any_event twelve (started test_platform 1000 any_event calls empty_store)).clients
        1
      ≡ some (record { call = resumes_with answer; program = p }))
    × HasEnded p
run-HasEnded_example =
    run-HasEnded test_platform 1000 any_event calls twelve empty_store 1 (resumes_with answer) refl
      (omega arith)

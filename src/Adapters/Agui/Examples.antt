-- ===== src/Adapters/Agui/Examples.antt =====
-- The AG-UI adapter on concrete values.
use pausemesh.Prelude.{
  ℕ, zero, suc, Option, ◌≤◌, ◌≡◌, refl, Bool, true, false, none, some, List, [], ◌∷◌, ◌++◌, ok, ◌↔◌,
  ◌⊎◌,
}
use pausemesh.Prelude.Text.{Text, codes, text_eq, is_member}
use pausemesh.Json.{Json, str, arr, obj, null, end, entry}
use pausemesh.Json.Fields.{field, as_text, only_keys}
use pausemesh.Storage.Numerals.{decimal, read_nat}
use pausemesh.Domain.Types.{ContinuationEnvelope, ContinuationStatus, Lifecycle, status}
use pausemesh.Domain.Events.{ContinuationEvent, EventBody}
use pausemesh.Domain.Reducer.Steps.{resumes}
use pausemesh.Adapters.Identifiers.{is_opaque_id, trim, is_hex_digest}
use pausemesh.Adapters.Payloads.{input}
use pausemesh.Adapters.Agui.Preflight.{
  Heap, Value, primitive, null_value, number, text, object, AguiInputLimits, delete, enter, has,
  parse_input_limits, passes_input_preflight, round, start, traverse, visits,
}
use pausemesh.Adapters.Agui.Preflight.Unfolding.{UnfoldsAll}
use pausemesh.Adapters.Agui.Preflight.Ends.{passes_input_preflight_ends}
use pausemesh.Adapters.Agui.Preflight.Complete.{passes_input_preflight_iff}
use pausemesh.Adapters.Agui.Receipts.{
  after, cohort_id, hash_json, is_cohort_id, parse_interrupt, parse_interrupts, parse_receipt,
  receipt_json, resume_idempotency_key, text_where, version_of,
}
use pausemesh.Adapters.Agui.Issuing.{
  AguiInterruptIssuance, AguiRunBinding, ContinuationPayload, accepted, descriptor_of, interrupt_of,
  issue_agui_interrupts, parse_binding, parse_payload, project, receipt_of, require_pending,
  some_of,
}
use pausemesh.Adapters.Agui.Issued.{issue_agui_interrupts-validate}
use pausemesh.Adapters.Agui.Cohorts.{find, validate_current_cohort, validate_receipt}
use pausemesh.Adapters.Agui.Resuming.{
  AguiResumeCommand, AguiResumeValidationOptions, Arguments, Environment, RunAgentInput, roots,
  from_agui_run_agent_input, from_parsed, passes, preflight, require_clock,
}
use pausemesh.Adapters.Agui.Batches.{IsBatch, from_agui_run_agent_input-IsBatch}
use pausemesh.Adapters.Agui.Reordering.{keep, done}
use pausemesh.Adapters.Agui.Preflight.Memory.{
  Contents, elements, properties, Memory, readable, continuations_json, holds, shape,
}
use pausemesh.Adapters.Agui.Replays.{IsReplayed, command_id, from_parsed-IsReplayed}
use pausemesh.Adapters.Agui.Retries.{AllRan, none_ran, ran, moved, from_agui_run_agent_input-AllRan}
use pausemesh.Adapters.Agui.Answering.{
  IsAskingInput, IsDue, command_of, entry_of, from_agui_run_agent_input-issue_agui_interrupts,
}

-- Two objects, the first with a primitive and the second, the second empty; a third that holds
-- itself.
abbrev heap : Heap
heap zero = primitive null_value ∷ object 1 ∷ []
heap (suc zero) = []
heap (suc (suc a)) = object 2 ∷ []

abbrev limits : AguiInputLimits
limits = record { max_input_depth = 2; max_input_nodes = 5 }

passed : passes_input_preflight heap limits (object 0 ∷ primitive null_value ∷ []) ≡ some true
unfolding passes_input_preflight traverse round enter visits start has delete
passed = refl

cyclic : passes_input_preflight heap limits (object 2 ∷ []) ≡ some false
unfolding passes_input_preflight traverse round enter visits start has delete
cyclic = refl

too_many : passes_input_preflight heap limits (object 0 ∷ object 0 ∷ []) ≡ some false
unfolding passes_input_preflight traverse round enter visits start has delete
too_many = refl

passes_input_preflight_ends_example :
    (b : Bool) × (passes_input_preflight heap limits (object 2 ∷ []) ≡ some b)
passes_input_preflight_ends_example = passes_input_preflight_ends heap limits (object 2 ∷ [])

passes_input_preflight_iff_example :
    (passes_input_preflight heap limits (object 0 ∷ primitive null_value ∷ []) ≡ some true)
    ↔ ((n : ℕ) × UnfoldsAll heap limits [] 0 (object 0 ∷ primitive null_value ∷ []) n × (n ≤ 5))
passes_input_preflight_iff_example =
    passes_input_preflight_iff heap limits (object 0 ∷ primitive null_value ∷ [])

abbrev any_date : Text → Bool
any_date s = true

-- 16 zeros.
abbrev zeros : Text
zeros = codes "0000000000000000"

-- A digest that tells no texts apart.
abbrev digest : Text → Text
digest s = zeros ++ zeros ++ zeros ++ zeros

abbrev asked : ContinuationEnvelope
asked = record {
  schema_version = 1;
  continuation_id = codes "c";
  correlation_id = codes "x";
  version = 1;
  created_at = codes "t";
  expires_at = codes "u";
  payload = obj (entry (codes "message") (str (codes "m")) end);
  metadata = end;
  lifecycle = Lifecycle.pending (codes "h");
}

abbrev binding : AguiRunBinding
binding = record { run_id = codes "r"; thread_id = codes "x" }

abbrev contract : ContinuationPayload
contract = record { kind = input; message = codes "m"; response_schema = none }

abbrev issuance : AguiInterruptIssuance
issuance = record {
  event = record {
    thread_id = codes "x";
    run_id = codes "r";
    interrupts = interrupt_of (asked, contract) ∷ [];
  };
  receipt = receipt_of digest (descriptor_of digest binding ((asked, contract) ∷ []));
}

issued : issue_agui_interrupts any_date digest (asked ∷ []) binding ≡ ok issuance
unfolding issue_agui_interrupts parse_binding some_of accepted project require_pending is_member
    parse_payload field as_text text_eq is_opaque_id trim parse_receipt parse_interrupts
    parse_interrupt receipt_json text_where version_of is_hex_digest is_cohort_id after cohort_id
    hash_json decimal read_nat only_keys
issued = refl

issue_agui_interrupts-validate_example :
    (validate_receipt digest any_date (receipt_json issuance.receipt) ≡ ok issuance.receipt)
    × (validate_current_cohort digest issuance.receipt (asked ∷ []) ≡ ok tt)
issue_agui_interrupts-validate_example =
    issue_agui_interrupts-validate any_date digest (asked ∷ []) binding issuance issued

abbrev answered : ContinuationEnvelope → Json
answered c = null

-- The schema of the input parses every value as the batch that answers the continuation.
abbrev env : Environment
env = record {
  parse_date = λ text. some 100;
  is_offset_datetime = any_date;
  sha256 = digest;
  parse_input = λ memory v.
      some (record { thread_id = codes "x"; resume = some (entry_of answered asked ∷ []) });
}

abbrev at : ℕ → AguiResumeValidationOptions
at t = record {
  now = some t;
  validate_payload = none;
  max_input_depth = none;
  max_input_nodes = none;
}

abbrev command : AguiResumeCommand
command = command_of answered env (at 50) (codes "x") asked

asking : IsAskingInput asked
unfolding parse_payload field as_text text_eq
asking = record { contract = contract; parsed = refl; kind = refl; unrestricted = refl }

in_time : IsDue env (at 50) asked
unfolding IsDue
in_time = refl

clock_runs : (t : ℕ) → require_clock (at t).now ≡ ok tt
unfolding require_clock
clock_runs t = refl

abbrev contents_at : List Contents → ℕ → Contents
contents_at [] a = elements []
contents_at (c ∷ cs) zero = c
contents_at (c ∷ cs) (suc a) = contents_at cs a

abbrev named : Text → Text → Text × Value
named key value = (key, primitive (text value))

-- The input and its batch of one entry, the receipt with its interrupt, the array of the
-- continuation, its payload and metadata, and the continuation, which ends in these properties.
abbrev memory_with : ℕ → List (Text × Value) → ℕ → Contents
memory_with version last = contents_at (
    properties (named (codes "threadId") (codes "x") ∷ (codes "resume", object 1) ∷ [])
    ∷ elements (object 2 ∷ [])
    ∷ properties (
        named (codes "interruptId") (codes "c")
        ∷ named (codes "status") (codes "resolved")
        ∷ (codes "payload", primitive null_value)
        ∷ [])
    ∷ properties (
        (codes "schemaVersion", primitive (number (decimal 1)))
        ∷ named (codes "threadId") (codes "x")
        ∷ named (codes "runId") (codes "r")
        ∷ (codes "interrupts", object 4)
        ∷ named (codes "cohortId") issuance.receipt.cohort_id
        ∷ [])
    ∷ elements (object 5 ∷ [])
    ∷ properties (
        named (codes "continuationId") (codes "c")
        ∷ named (codes "expiresAt") (codes "u")
        ∷ (codes "issuedVersion", primitive (number (decimal 1)))
        ∷ named (codes "payloadHash") (hash_json digest asked.payload)
        ∷ [])
    ∷ elements (object 9 ∷ [])
    ∷ properties (named (codes "message") (codes "m") ∷ [])
    ∷ properties []
    ∷ properties (
        (codes "schemaVersion", primitive (number (decimal 1)))
        ∷ named (codes "continuationId") (codes "c")
        ∷ named (codes "correlationId") (codes "x")
        ∷ (codes "version", primitive (number (decimal version)))
        ∷ named (codes "createdAt") (codes "t")
        ∷ named (codes "expiresAt") (codes "u")
        ∷ (codes "payload", object 7)
        ∷ (codes "metadata", object 8)
        ∷ last)
    ∷ [])

abbrev pending_memory : Memory
pending_memory =
    memory_with 1
      (named (codes "status") (codes "pending") ∷ named (codes "resumeTokenHash") (codes "h") ∷ [])

pending_receipt : holds pending_memory (object 3) (receipt_json issuance.receipt) ≡ true
unfolding holds receipt_json cohort_id hash_json decimal text_eq
pending_receipt = refl

pending_current : holds pending_memory (object 6) (arr (continuations_json (asked ∷ []))) ≡ true
unfolding holds continuations_json decimal text_eq
pending_current = refl

abbrev first_call : Arguments
first_call = record {
  memory = pending_memory;
  input = object 0;
  receipt = object 3;
  current = object 6;
  raw_receipt = some (receipt_json issuance.receipt);
  continuations = asked ∷ [];
  receipt_read = readable pending_receipt;
  current_read = pending_current;
}

first_call_passes :
    preflight (shape pending_memory) (roots first_call) (parse_input_limits none none) ≡ true
unfolding preflight passes parse_input_limits passes_input_preflight traverse round enter visits
    start has delete hash_json cohort_id
first_call_passes = refl

from_agui_run_agent_input-issue_agui_interrupts_example :
    from_agui_run_agent_input env (at 50) first_call ≡ ok (command ∷ [])
from_agui_run_agent_input-issue_agui_interrupts_example =
    from_agui_run_agent_input-issue_agui_interrupts env (at 50) answered (asked ∷ []) binding
      issuance first_call (keep asked done) issued refl refl (asking, tt) (in_time, tt)
      (clock_runs 50) first_call_passes

-- The same, for the other witnesses.
accepted_batch : from_agui_run_agent_input env (at 50) first_call ≡ ok (command ∷ [])
accepted_batch =
    from_agui_run_agent_input-issue_agui_interrupts env (at 50) answered (asked ∷ []) binding
      issuance first_call (keep asked done) issued refl refl (asking, tt) (in_time, tt)
      (clock_runs 50) first_call_passes

abbrev key : Text
key = resume_idempotency_key digest (codes "x") (codes "c") null

abbrev resumed : ContinuationEnvelope
resumed = record asked { version = 2; lifecycle = Lifecycle.resumed (codes "v") key null }

abbrev event : ContinuationEvent
event = record {
  schema_version = 1;
  continuation_id = codes "c";
  version = 2;
  occurred_at = codes "v";
  body = EventBody.resumed key null;
}

moved_on : AllRan (asked ∷ []) (resumed ∷ []) issuance.receipt.descriptor.interrupts (command ∷ [])
unfolding find text_eq
moved_on =
    ran asked resumed refl refl
      (moved event
        (record {
          schema = refl;
          identity = refl;
          fence = refl;
          was_pending = refl;
          version = refl;
          schema_after = refl;
          request = record {
            continuation_id = refl;
            correlation_id = refl;
            created_at = refl;
            expires_at = refl;
            payload = refl;
            metadata = refl;
          };
          closes = resumes;
        })
        refl)
      none_ran

sealed : validate_receipt digest any_date (receipt_json issuance.receipt) ≡ ok issuance.receipt
sealed = (issue_agui_interrupts-validate any_date digest (asked ∷ []) binding issuance issued).0

abbrev resumed_memory : Memory
resumed_memory = memory_with 2 (
    named (codes "status") (codes "resumed")
    ∷ named (codes "resumedAt") (codes "v")
    ∷ named (codes "idempotencyKey") key
    ∷ (codes "resumePayload", primitive null_value)
    ∷ [])

resumed_receipt : holds resumed_memory (object 3) (receipt_json issuance.receipt) ≡ true
unfolding holds receipt_json cohort_id hash_json decimal text_eq
resumed_receipt = refl

resumed_current : holds resumed_memory (object 6) (arr (continuations_json (resumed ∷ []))) ≡ true
unfolding holds continuations_json decimal text_eq resume_idempotency_key hash_json
resumed_current = refl

abbrev second_call : Arguments
second_call = record {
  memory = resumed_memory;
  input = object 0;
  receipt = object 3;
  current = object 6;
  raw_receipt = some (receipt_json issuance.receipt);
  continuations = resumed ∷ [];
  receipt_read = readable resumed_receipt;
  current_read = resumed_current;
}

second_call_passes :
    preflight (shape resumed_memory) (roots second_call) (parse_input_limits none none) ≡ true
unfolding preflight passes parse_input_limits passes_input_preflight traverse round enter visits
    start has delete
second_call_passes = refl

-- After the continuation has expired.
from_agui_run_agent_input-AllRan_example :
    from_agui_run_agent_input env (at 500) second_call ≡ ok (command ∷ [])
from_agui_run_agent_input-AllRan_example =
    from_agui_run_agent_input-AllRan env (at 50) (at 500) first_call second_call
      (receipt_json issuance.receipt) issuance.receipt (command ∷ []) accepted_batch refl refl
      sealed refl refl moved_on (clock_runs 500) second_call_passes

replayed_call : from_agui_run_agent_input env (at 500) second_call ≡ ok (command ∷ [])
replayed_call =
    from_agui_run_agent_input-AllRan env (at 50) (at 500) first_call second_call
      (receipt_json issuance.receipt) issuance.receipt (command ∷ []) accepted_batch refl refl
      sealed refl refl moved_on (clock_runs 500) second_call_passes

abbrev parsed_batch : Option RunAgentInput
parsed_batch = some (record { thread_id = codes "x"; resume = some (entry_of answered asked ∷ []) })

replayed_batch :
    from_parsed env (at 500) parsed_batch (some (receipt_json issuance.receipt)) (resumed ∷ [])
    ≡ ok (command ∷ [])
unfolding from_agui_run_agent_input preflight passes parse_input_limits passes_input_preflight
    traverse round enter visits start has delete
replayed_batch = replayed_call

from_parsed-IsReplayed_example :
    (c : ContinuationEnvelope) × (find (command_id command) (resumed ∷ []) ≡ some c)
    × ((status c ≡ ContinuationStatus.pending) ⊎ IsReplayed c command)
from_parsed-IsReplayed_example =
    from_parsed-IsReplayed env (at 500) parsed_batch (some (receipt_json issuance.receipt))
      (resumed ∷ []) (command ∷ []) 0 command replayed_batch refl

from_agui_run_agent_input-IsBatch_example : IsBatch env (at 50) first_call (command ∷ [])
from_agui_run_agent_input-IsBatch_example =
    from_agui_run_agent_input-IsBatch env (at 50) first_call (command ∷ []) accepted_batch

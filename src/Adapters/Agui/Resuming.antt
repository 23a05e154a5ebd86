-- ===== src/Adapters/Agui/Resuming.antt =====
-- `fromAguiRunAgentInput` of adapters/agui/interrupt.ts, with `validatePayloadWithPolicy`. The
-- schema of the run input is the protocol package's, a parameter; so are the clock, which is read
-- once, and the host's validator of payloads, which may throw or change the copies it is given.
use pausemesh.Prelude.{
  ℕ, ◌≡◌, Bool, true, false, not, ◌&&◌, Option, none, some, List, [], ◌∷◌, Result, ok, err, ◌>>=◌,
  ◌>>◌, length, all, ◌==◌, if◌then◌else◌,
}
use pausemesh.Prelude.Text.{Text, codes, text_eq, is_member, set_size}
use pausemesh.Json.{Json, arr, JsonObject}
use pausemesh.Json.Canonical.{canonical_json}
use pausemesh.Domain.Types.{ContinuationId, ContinuationEnvelope, Lifecycle}
use pausemesh.Ports.Platform.{Date, date_le}
use pausemesh.Adapters.Payloads.{PayloadKind, input, authorization}
use pausemesh.Adapters.Protocol.{require}
use pausemesh.Adapters.Agui.Preflight.{
  Heap, Value, AguiInputLimits, parse_input_limits, passes_input_preflight,
}
use pausemesh.Adapters.Agui.Preflight.Memory.{Memory, Reads, continuations_json, holds, shape}
use pausemesh.Adapters.Agui.Receipts.{
  AguiReceiptInterrupt, AguiResumeErrorCode, invalid_input, resume_required, thread_mismatch,
  duplicate_interrupt, resume_set_mismatch, resume_expired, invalid_entry, invalid_payload,
  replay_conflict, resume_idempotency_key,
}
use pausemesh.Adapters.Agui.Issuing.{
  AguiResumeEntry, ContinuationPayload, ResumeStatus, parse_payload, payload_or,
}
use pausemesh.Adapters.Agui.Cohorts.{
  issued_ids, find, found, validate_current_cohort, validate_receipt,
}

-- What the program reads of a parsed `RunAgentInput`.
pub record RunAgentInput : Type 0 where
  pub thread_id : Text
  pub resume : Option (List AguiResumeEntry)

pub data AguiResumeCommand : Type 0 where
  resume : (id : ContinuationId) (idempotency_key : Text) (payload : Json) → AguiResumeCommand
  -- The reason is `agui_cancelled`.
  cancel : (id : ContinuationId) (expected_version : ℕ) → AguiResumeCommand

abbrev pub agui_cancelled : Text
agui_cancelled = codes "agui:cancelled"

-- What a call of the validator does. The payload is the copy as the call left it, `none` if it is
-- no JSON value.
pub data Validation : Type 0 where
  thrown invalid : Validation
  valid : (left : Option Json) → Validation

abbrev pub AguiPayloadValidator : Type 0
AguiPayloadValidator = ContinuationEnvelope → Json → JsonObject → Validation

unfoldable pub unchanged : Json → Validation → Result AguiResumeErrorCode (Unit {0})
unchanged payload (valid (some left)) =
    require (text_eq (canonical_json left) (canonical_json payload)) invalid_payload
unchanged payload _ = err invalid_payload

unfoldable pub validate_payload_with_policy :
    ContinuationEnvelope
    → Json
    → JsonObject
    → Option AguiPayloadValidator
    → Result AguiResumeErrorCode (Unit {0})
unfolding unchanged
validate_payload_with_policy c payload schema none = err invalid_payload
validate_payload_with_policy c payload schema (some validator) =
    unchanged payload (validator c payload schema)

-- `entriesById.get(id)`; the identifiers are distinct.
unfoldable pub find_entry : ContinuationId → List AguiResumeEntry → Option AguiResumeEntry
find_entry id [] = none
find_entry id (e ∷ es) =
    let rest = find_entry id es in if text_eq id e.interrupt_id then some e else rest

-- The loop that fills `entriesById`, with the keys that it has.
unfoldable pub collect_entries :
    List Text → List AguiResumeEntry → Result AguiResumeErrorCode (Unit {0})
collect_entries ids [] = ok tt
collect_entries ids (e ∷ es) = do
  require (not (is_member e.interrupt_id ids)) duplicate_interrupt
  collect_entries (e.interrupt_id ∷ ids) es

-- The entries address the issued interrupts, and all of them.
unfoldable pub covers : List AguiReceiptInterrupt → List AguiResumeEntry → Bool
covers interrupts entries =
    (length entries == set_size (issued_ids interrupts))
    && all (λ (e : AguiResumeEntry). is_member e.interrupt_id (issued_ids interrupts)) entries

pub record AguiResumeValidationOptions : Type 0 where
  -- `options.now`, or the clock
  pub now : Date
  pub validate_payload : Option AguiPayloadValidator
  pub max_input_depth : Option (Option ℕ)
  pub max_input_nodes : Option (Option ℕ)

-- The parameters: `Date.parse`, the test of date texts, the digest, and the schema of the input.
pub record Environment : Type 0 where
  pub parse_date : Text → Date
  pub is_offset_datetime : Text → Bool
  pub sha256 : Text → Text
  pub parse_input : Memory → Value → Option RunAgentInput

-- `rawInput`, `rawReceipt` and `currentContinuations`, as they stand in the memory, with what the
-- receipt and the continuations hold. The schema of receipts refuses what holds no JSON value.
pub record Arguments : Type 0 where
  pub memory : Memory
  pub input : Value
  pub receipt : Value
  pub current : Value
  pub raw_receipt : Option Json
  pub continuations : List ContinuationEnvelope
  pub receipt_read : Reads memory receipt raw_receipt
  pub current_read : holds memory current (arr (continuations_json continuations)) ≡ true

-- `[rawInput, rawReceipt, currentContinuations]`
abbrev pub roots : Arguments → List Value
roots a = a.input ∷ a.receipt ∷ a.current ∷ []

abbrev pub is_absent : Option Json → Bool
is_absent none = true
is_absent (some payload) = false

abbrev pub allows : PayloadKind → Bool
allows input = true
allows authorization = false

unfoldable pub require_clock : Date → Result AguiResumeErrorCode (Unit {0})
require_clock none = err invalid_input
require_clock (some t) = ok tt

unfoldable pub passes : Option Bool → Bool
passes (some b) = b
passes none = false

unfoldable pub preflight : Heap → List Value → Option AguiInputLimits → Bool
unfolding passes
preflight heap roots none = false
preflight heap roots (some limits) = passes (passes_input_preflight heap limits roots)

module _ (env : Environment) (options : AguiResumeValidationOptions) where
  abbrev pub is_over : ContinuationEnvelope → Bool
  is_over c = date_le (env.parse_date c.expires_at) options.now

  -- What a cancelled entry asks of a continuation in this state.
  unfoldable pub cancel_check :
      ContinuationEnvelope → Lifecycle → Result AguiResumeErrorCode (Unit {0})
  cancel_check c (Lifecycle.pending hash) = require (not (is_over c)) resume_expired
  cancel_check c (Lifecycle.resumed at key payload) = err replay_conflict
  cancel_check c (Lifecycle.cancelled at none) = err replay_conflict
  cancel_check c (Lifecycle.cancelled at (some reason)) =
      require (text_eq reason agui_cancelled) replay_conflict
  cancel_check c (Lifecycle.expired at) = err resume_expired

  unfoldable pub policy_check :
      ContinuationEnvelope → Json → Option JsonObject → Result AguiResumeErrorCode (Unit {0})
  policy_check c payload none = ok tt
  policy_check c payload (some schema) =
      validate_payload_with_policy c payload schema options.validate_payload

  -- What a resolved entry asks of a continuation in this state.
  unfoldable pub resume_check :
      ContinuationEnvelope
      → Text
      → Json
      → Option JsonObject
      → Lifecycle
      → Result AguiResumeErrorCode (Unit {0})
  unfolding policy_check
  resume_check c key payload schema (Lifecycle.resumed at recorded_key recorded) =
      require
        (text_eq recorded_key key && text_eq (canonical_json recorded) (canonical_json payload))
        replay_conflict
  resume_check c key payload schema (Lifecycle.cancelled at reason) = err replay_conflict
  resume_check c key payload schema (Lifecycle.expired at) = err resume_expired
  resume_check c key payload schema (Lifecycle.pending hash) = do
    require (not (is_over c)) resume_expired
    policy_check c payload schema

  -- One entry, by its status.
  unfoldable pub entry_command :
      Text
      → AguiReceiptInterrupt
      → ContinuationEnvelope
      → ContinuationPayload
      → Option Json
      → ResumeStatus
      → Result AguiResumeErrorCode AguiResumeCommand
  entry_command thread_id issued c contract payload ResumeStatus.cancelled = do
    require (is_absent payload) invalid_entry
    cancel_check c c.lifecycle
    ok (AguiResumeCommand.cancel c.continuation_id issued.issued_version)
  entry_command thread_id issued c contract none ResumeStatus.resolved = err invalid_payload
  entry_command thread_id issued c contract (some payload) ResumeStatus.resolved =
      let key = resume_idempotency_key env.sha256 thread_id c.continuation_id payload in
      do
        require (allows contract.kind) invalid_entry
        resume_check c key payload contract.response_schema c.lifecycle
        ok (AguiResumeCommand.resume c.continuation_id key payload)

  -- The body of the loop over the issued interrupts.
  unfoldable pub command_for :
      Text
      → AguiReceiptInterrupt
      → ContinuationEnvelope
      → AguiResumeEntry
      → Result AguiResumeErrorCode AguiResumeCommand
  command_for thread_id issued c e = do
    contract ← payload_or invalid_input (parse_payload c.payload)
    entry_command thread_id issued c contract e.payload e.status

  unfoldable pub commands_for :
      Text
      → List ContinuationEnvelope
      → List AguiResumeEntry
      → List AguiReceiptInterrupt
      → Result AguiResumeErrorCode (List AguiResumeCommand)
  commands_for thread_id current entries [] = ok []
  commands_for thread_id current entries (issued ∷ rest) = do
    c ← found resume_set_mismatch (find issued.continuation_id current)
    e ← found resume_set_mismatch (find_entry issued.continuation_id entries)
    command ← command_for thread_id issued c e
    commands ← commands_for thread_id current entries rest
    ok (command ∷ commands)

  -- From the preflight on.
  unfoldable pub from_parsed :
      Option RunAgentInput
      → Option Json
      → List ContinuationEnvelope
      → Result AguiResumeErrorCode (List AguiResumeCommand)
  unfolding require_clock
  from_parsed parsed_input raw_receipt current = do
    parsed ← found invalid_input parsed_input
    raw ← found invalid_input raw_receipt
    receipt ← validate_receipt env.sha256 env.is_offset_datetime raw
    validate_current_cohort env.sha256 receipt current
    require (text_eq parsed.thread_id receipt.descriptor.thread_id) thread_mismatch
    entries ← found resume_required parsed.resume
    collect_entries [] entries
    require (covers receipt.descriptor.interrupts entries) resume_set_mismatch
    require_clock options.now
    commands_for receipt.descriptor.thread_id current entries receipt.descriptor.interrupts

  unfoldable pub from_agui_run_agent_input :
      Arguments → Result AguiResumeErrorCode (List AguiResumeCommand)
  unfolding preflight
  from_agui_run_agent_input a = do
    require
        (preflight (shape a.memory) (roots a)
          (parse_input_limits options.max_input_depth options.max_input_nodes))
        invalid_input
    from_parsed (env.parse_input a.memory a.input) a.raw_receipt a.continuations

-- ===== src/Adapters/Agui/Cohorts.antt =====
-- `validateReceipt` and `validateCurrentCohort` of adapters/agui/interrupt.ts.
use pausemesh.Prelude.{
  ℕ, ◌+◌, Bool, ◌&&◌, Option, none, some, List, [], ◌∷◌, map, Result, ok, err, ◌>>=◌, ◌>>◌, length,
  ◌==◌, if◌then◌else◌,
}
use pausemesh.Prelude.Text.{Text, text_eq, set_size}
use pausemesh.Json.{Json}
use pausemesh.Domain.Types.{ContinuationId, ContinuationEnvelope, Lifecycle}
use pausemesh.Adapters.Protocol.{require}
use pausemesh.Adapters.Agui.Receipts.{
  AguiReceiptInterrupt, AguiInterruptReceipt, AguiResumeErrorCode, invalid_input,
  resume_set_mismatch, replay_conflict, hash_json, cohort_id, parse_receipt,
}

abbrev pub issued_ids : List AguiReceiptInterrupt → List ContinuationId
issued_ids = map (λ (i : AguiReceiptInterrupt). i.continuation_id)

abbrev pub ids_of : List ContinuationEnvelope → List ContinuationId
ids_of = map (λ (c : ContinuationEnvelope). c.continuation_id)

-- `continuationsById.get(id)`: the last of the entries with a key stands in a map.
unfoldable pub find : ContinuationId → List ContinuationEnvelope → Option ContinuationEnvelope
find id [] = none
find id (c ∷ cs) = elim (find id cs) [
  | some d ↦ some d
  | none ↦ if text_eq id c.continuation_id then some c else none
]

abbrev pub found {ℓ} : {A : Type ℓ} → AguiResumeErrorCode → Option A → Result AguiResumeErrorCode A
found code none = err code
found code (some a) = ok a

-- The version of a continuation that was issued pending, and of its closed state.
abbrev pub expected_version : ℕ → Lifecycle → ℕ
expected_version issued (Lifecycle.pending hash) = issued
expected_version issued (Lifecycle.resumed at key payload) = issued + 1
expected_version issued (Lifecycle.cancelled at reason) = issued + 1
expected_version issued (Lifecycle.expired at) = issued + 1

-- The continuations are distinct, and as many as were issued.
abbrev pub is_whole : AguiInterruptReceipt → List ContinuationEnvelope → Bool
is_whole receipt current =
    (set_size (ids_of current) == length current)
    && (set_size (ids_of current) == length receipt.descriptor.interrupts)

module _ (sha256 : Text → Text) where
  abbrev pub matches : Text → AguiReceiptInterrupt → ContinuationEnvelope → Bool
  matches thread_id issued c =
      text_eq c.correlation_id thread_id
      && (text_eq c.expires_at issued.expires_at
          && ((c.version == expected_version issued.issued_version c.lifecycle)
              && text_eq (hash_json sha256 c.payload) issued.payload_hash))

  unfoldable pub check_issued :
      Text
      → List ContinuationEnvelope
      → List AguiReceiptInterrupt
      → Result AguiResumeErrorCode (Unit {0})
  check_issued thread_id current [] = ok tt
  check_issued thread_id current (issued ∷ rest) = do
    c ← found resume_set_mismatch (find issued.continuation_id current)
    require (matches thread_id issued c) replay_conflict
    check_issued thread_id current rest

  -- The map that it returns is read by `find`.
  unfoldable pub validate_current_cohort :
      AguiInterruptReceipt → List ContinuationEnvelope → Result AguiResumeErrorCode (Unit {0})
  validate_current_cohort receipt current = do
    require (is_whole receipt current) resume_set_mismatch
    check_issued receipt.descriptor.thread_id current receipt.descriptor.interrupts

  unfoldable pub validate_receipt :
      (Text → Bool) → Json → Result AguiResumeErrorCode AguiInterruptReceipt
  validate_receipt is_offset_datetime raw = do
    receipt ← parse_receipt is_offset_datetime raw
    require (text_eq receipt.cohort_id (cohort_id sha256 receipt.descriptor)) invalid_input
    require
        (set_size (issued_ids receipt.descriptor.interrupts)
          == length receipt.descriptor.interrupts)
        invalid_input
    ok receipt

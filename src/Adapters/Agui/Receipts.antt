-- ===== src/Adapters/Agui/Receipts.antt =====
-- The receipts of adapters/agui/interrupt.ts: their schema, their digests and their checks. The
-- digest of a text in hexadecimal, and the test of date texts, are parameters.
pub mod Printed
use pausemesh.Prelude.{
  ℕ, Bool, true, false, not, ◌&&◌, ◌||◌, Option, none, some, List, [], ◌∷◌, ◌++◌, map, Result, ok,
  err, ◌>>=◌, ◌>>◌, length, all, leb, ltb, ◌==◌, if◌then◌else◌,
}
use pausemesh.Prelude.Text.{Text, codes, text_eq}
use pausemesh.Json.{Json, num, str, bool, arr, obj, Items, nil, cons, Entries, end, entry}
use pausemesh.Json.Fields.{field, as_text, only_keys}
use pausemesh.Json.Canonical.{canonical_json}
use pausemesh.Domain.Types.{ContinuationId, IsoTimestamp, max_safe_integer}
use pausemesh.Storage.Numerals.{decimal, read_nat}
use pausemesh.Adapters.Identifiers.{is_opaque_id, is_hex_digest}
use pausemesh.Adapters.Protocol.{require}

pub record AguiReceiptInterrupt : Type 0 where
  pub continuation_id : ContinuationId
  pub expires_at : IsoTimestamp
  pub issued_version : ℕ
  pub payload_hash : Text

-- `Omit<AguiInterruptReceipt, "cohortId">`; the schema version is 1.
pub record ReceiptDescriptor : Type 0 where
  pub thread_id : Text
  pub run_id : Text
  pub interrupts : List AguiReceiptInterrupt

pub record AguiInterruptReceipt : Type 0 where
  pub cohort_id : Text
  pub descriptor : ReceiptDescriptor

pub data AguiResumeErrorCode : Type 0 where
  invalid_input resume_required thread_mismatch duplicate_interrupt : AguiResumeErrorCode
  resume_set_mismatch resume_expired invalid_entry : AguiResumeErrorCode
  invalid_payload replay_conflict : AguiResumeErrorCode

-- What follows a prefix.
unfoldable pub after : Text → Text → Option Text
after [] text = some text
after (c ∷ prefix) [] = none
after (c ∷ prefix) (d ∷ text) = let rest = after prefix text in if c == d then rest else none

test : (Text → Bool) → Option Text → Bool
test p none = false
test p (some text) = p text

-- `/^agui-cohort:[a-f\d]{64}$/`
unfoldable pub is_cohort_id : Text → Bool
unfolding test
is_cohort_id text = test is_hex_digest (after (codes "agui-cohort:") text)

-- `z.number().int().positive().safe()`
abbrev pub is_version : ℕ → Bool
is_version n = leb 1 n && leb n max_safe_integer

abbrev pub entry_json : AguiReceiptInterrupt → Json
entry_json interrupt = obj (
    entry (codes "continuationId") (str interrupt.continuation_id) (
      entry (codes "expiresAt") (str interrupt.expires_at) (
        entry (codes "issuedVersion") (num (decimal interrupt.issued_version))
          (entry (codes "payloadHash") (str interrupt.payload_hash) end))))

pub entries_json : List AguiReceiptInterrupt → Items
entries_json [] = nil
entries_json (interrupt ∷ rest) = cons (entry_json interrupt) (entries_json rest)

abbrev descriptor_entries : ReceiptDescriptor → Entries
descriptor_entries descriptor = entry (codes "schemaVersion") (num (decimal 1)) (
    entry (codes "threadId") (str descriptor.thread_id) (
      entry (codes "runId") (str descriptor.run_id)
        (entry (codes "interrupts") (arr (entries_json descriptor.interrupts)) end)))

-- `receiptDescriptor`
unfoldable pub receipt_descriptor : ReceiptDescriptor → Json
receipt_descriptor descriptor = obj (descriptor_entries descriptor)

-- The receipt as a JSON value: `{ ...descriptor, cohortId }`.
unfoldable pub receipt_json : AguiInterruptReceipt → Json
unfolding entries_json
receipt_json receipt = obj (
    entry (codes "schemaVersion") (num (decimal 1)) (
      entry (codes "threadId") (str receipt.descriptor.thread_id) (
        entry (codes "runId") (str receipt.descriptor.run_id) (
          entry (codes "interrupts") (arr (entries_json receipt.descriptor.interrupts))
            (entry (codes "cohortId") (str receipt.cohort_id) end)))))

module _ (sha256 : Text → Text) where
  unfoldable pub hash_json : Json → Text
  hash_json value = sha256 (canonical_json value)

  unfoldable pub cohort_id : ReceiptDescriptor → Text
  cohort_id descriptor =
      codes "agui-cohort:"
      ++ hash_json
          (arr (cons (str (codes "agui-cohort-v1")) (cons (receipt_descriptor descriptor) nil)))

  unfoldable pub resume_idempotency_key : Text → ContinuationId → Json → Text
  resume_idempotency_key thread_id interrupt_id payload =
      codes "agui:"
      ++ hash_json (
          arr (
            cons (str (codes "agui-v1")) (
              cons (str thread_id) (
                cons (str interrupt_id)
                  (cons (str (codes "resolved")) (cons (bool true) (cons payload nil)))))))

-- A text field that passes a test.
unfoldable pub text_where : (Text → Bool) → Option Json → Result AguiResumeErrorCode Text
text_where p (some (str s)) = if p s then ok s else err invalid_input
text_where p _ = err invalid_input

version_where : Option ℕ → Result AguiResumeErrorCode ℕ
version_where none = err invalid_input
version_where (some n) = if is_version n then ok n else err invalid_input

unfoldable pub version_of : Option Json → Result AguiResumeErrorCode ℕ
unfolding version_where
version_of (some (num literal)) = version_where (read_nat literal)
version_of _ = err invalid_input

-- `z.literal(1)`
is_one : Option Json → Bool
is_one (some (num literal)) = text_eq literal (decimal 1)
is_one _ = false

items_of : Option Json → Result AguiResumeErrorCode Items
items_of (some (arr (cons x xs))) = ok (cons x xs)
items_of _ = err invalid_input

module _ (is_offset_datetime : Text → Bool) where
  -- `AguiReceiptInterruptSchema`
  unfoldable pub parse_interrupt : Json → Result AguiResumeErrorCode AguiReceiptInterrupt
  parse_interrupt (obj es) = do
    continuation_id ← text_where is_opaque_id (field (codes "continuationId") es)
    expires_at ← text_where is_offset_datetime (field (codes "expiresAt") es)
    issued_version ← version_of (field (codes "issuedVersion") es)
    payload_hash ← text_where is_hex_digest (field (codes "payloadHash") es)
    require
        (only_keys
          (codes "continuationId"
            ∷ codes "expiresAt"
            ∷ codes "issuedVersion"
            ∷ codes "payloadHash"
            ∷ [])
          es)
        invalid_input
    ok (record {
      continuation_id = continuation_id;
      expires_at = expires_at;
      issued_version = issued_version;
      payload_hash = payload_hash;
    })
  parse_interrupt _ = err invalid_input

  unfoldable pub parse_interrupts : Items → Result AguiResumeErrorCode (List AguiReceiptInterrupt)
  parse_interrupts nil = ok []
  parse_interrupts (cons x xs) = do
    interrupt ← parse_interrupt x
    rest ← parse_interrupts xs
    ok (interrupt ∷ rest)

  -- `AguiInterruptReceiptSchema`
  unfoldable pub parse_receipt : Json → Result AguiResumeErrorCode AguiInterruptReceipt
  unfolding is_one items_of
  parse_receipt (obj es) = do
    require (is_one (field (codes "schemaVersion") es)) invalid_input
    cohort ← text_where is_cohort_id (field (codes "cohortId") es)
    thread_id ← text_where is_opaque_id (field (codes "threadId") es)
    run_id ← text_where is_opaque_id (field (codes "runId") es)
    items ← items_of (field (codes "interrupts") es)
    interrupts ← parse_interrupts items
    require
        (only_keys
          (codes "schemaVersion"
            ∷ codes "cohortId"
            ∷ codes "threadId"
            ∷ codes "runId"
            ∷ codes "interrupts"
            ∷ [])
          es)
        invalid_input
    ok (record {
      cohort_id = cohort;
      descriptor = record { thread_id = thread_id; run_id = run_id; interrupts = interrupts };
    })
  parse_receipt _ = err invalid_input

-- ===== src/Storage/Codec.antt =====
-- The JSON objects of events, of adapters/storage/event-serialization.ts: their fields in the order
-- of the schema, and the strict object schemas that read them.
use pausemesh.Prelude.{
  ℕ, ◌≡◌, refl, Bool, true, false, Option, none, some, List, [], ◌∷◌, Result, ok, err, ◌>>=◌, ◌>>◌,
  if◌then◌else◌,
}
use pausemesh.Prelude.Text.{Text, codes, text_eq}
use pausemesh.Json.{Json, num, str, obj, Entries, end, entry, JsonObject}
use pausemesh.Json.Fields.{field, as_text, only_keys}
use pausemesh.Domain.Events.{ContinuationEvent, EventBody}
use pausemesh.Ports.Failure.{Failure, type_error}
use pausemesh.Storage.Numerals.{decimal, read_nat, read_nat-decimal}

-- The fields beside the common ones. An absent reason is no field.
encode_body : EventBody → Entries
encode_body (EventBody.created correlation_id expires_at payload metadata hash) =
    entry (codes "type") (str (codes "continuation.created")) (
      entry (codes "correlationId") (str correlation_id) (
        entry (codes "expiresAt") (str expires_at) (
          entry (codes "payload") payload (
            entry (codes "metadata") (obj metadata)
              (entry (codes "resumeTokenHash") (str hash) end)))))
encode_body (EventBody.resumed key payload) =
    entry (codes "type") (str (codes "continuation.resumed"))
      (entry (codes "idempotencyKey") (str key) (entry (codes "resumePayload") payload end))
encode_body (EventBody.cancelled none) =
    entry (codes "type") (str (codes "continuation.cancelled")) end
encode_body (EventBody.cancelled (some reason)) =
    entry (codes "type") (str (codes "continuation.cancelled"))
      (entry (codes "reason") (str reason) end)
encode_body EventBody.expired = entry (codes "type") (str (codes "continuation.expired")) end

-- The object that `JSON.stringify` prints.
unfoldable pub encode : ContinuationEvent → Json
unfolding encode_body
encode event = obj (
    entry (codes "schemaVersion") (num (decimal event.schema_version)) (
      entry (codes "continuationId") (str event.continuation_id) (
        entry (codes "version") (num (decimal event.version))
          (entry (codes "occurredAt") (str event.occurred_at) (encode_body event.body)))))

as_nat : Option Json → Option ℕ
as_nat (some (num literal)) = read_nat literal
as_nat _ = none

as_object : Option Json → Option JsonObject
as_object (some (obj es)) = some es
as_object _ = none

-- `z.string().optional()`
as_optional_text : Option Json → Option (Option Text)
as_optional_text none = some none
as_optional_text (some (str s)) = some (some s)
as_optional_text _ = none

abbrev base_keys : List Text
base_keys =
    codes "schemaVersion"
    ∷ codes "continuationId"
    ∷ codes "version"
    ∷ codes "occurredAt"
    ∷ codes "type"
    ∷ []

-- A part that the schema requires.
require : {A : Type 0} → Option A → Result Failure A
require none = err type_error
require (some a) = ok a

check : Bool → Result Failure (Unit {0})
check true = ok tt
check false = err type_error

decode_created : Entries → Result Failure EventBody
unfolding field as_text as_object require only_keys check
decode_created es = do
  correlation_id ← require (as_text (field (codes "correlationId") es))
  expires_at ← require (as_text (field (codes "expiresAt") es))
  payload ← require (field (codes "payload") es)
  metadata ← require (as_object (field (codes "metadata") es))
  hash ← require (as_text (field (codes "resumeTokenHash") es))
  check (
      only_keys
        (codes "correlationId"
          ∷ codes "expiresAt"
          ∷ codes "payload"
          ∷ codes "metadata"
          ∷ codes "resumeTokenHash"
          ∷ base_keys)
        es)
  ok (EventBody.created correlation_id expires_at payload metadata hash)

decode_resumed : Entries → Result Failure EventBody
unfolding field as_text require only_keys check
decode_resumed es = do
  key ← require (as_text (field (codes "idempotencyKey") es))
  payload ← require (field (codes "resumePayload") es)
  check (only_keys (codes "idempotencyKey" ∷ codes "resumePayload" ∷ base_keys) es)
  ok (EventBody.resumed key payload)

decode_cancelled : Entries → Result Failure EventBody
unfolding field as_optional_text require only_keys check
decode_cancelled es = do
  reason ← require (as_optional_text (field (codes "reason") es))
  check (only_keys (codes "reason" ∷ base_keys) es)
  ok (EventBody.cancelled reason)

decode_expired : Entries → Result Failure EventBody
unfolding only_keys check
decode_expired es = do check (only_keys base_keys es); ok EventBody.expired

-- The union that the type selects.
decode_body : Text → Entries → Result Failure EventBody
unfolding decode_created decode_resumed decode_cancelled decode_expired
decode_body type es =
    if text_eq type (codes "continuation.created")
    then decode_created es
    else if text_eq type (codes "continuation.resumed")
    then decode_resumed es
    else if text_eq type (codes "continuation.cancelled")
    then decode_cancelled es
    else if text_eq type (codes "continuation.expired")
    then decode_expired es
    else err type_error

-- The shape of an event; its values are checked after.
unfoldable pub decode : Json → Result Failure ContinuationEvent
unfolding field as_text as_nat require decode_body
decode (obj es) = do
  schema_version ← require (as_nat (field (codes "schemaVersion") es))
  continuation_id ← require (as_text (field (codes "continuationId") es))
  version ← require (as_nat (field (codes "version") es))
  occurred_at ← require (as_text (field (codes "occurredAt") es))
  type ← require (as_text (field (codes "type") es))
  body ← decode_body type es
  ok (record {
    schema_version = schema_version;
    continuation_id = continuation_id;
    version = version;
    occurred_at = occurred_at;
    body = body;
  })
decode j = err type_error

round_trip_of_body :
    (v w : ℕ) (id at : Text) (body : EventBody)
    → let event : ContinuationEvent = record {
      schema_version = v;
      continuation_id = id;
      version = w;
      occurred_at = at;
      body = body;
    } in
      decode (encode event) ≡ ok event
unfolding decode encode text_eq field as_text only_keys
round_trip_of_body v w id at (EventBody.created c e p m h) =
    rw (read_nat-decimal v, read_nat-decimal w) refl
round_trip_of_body v w id at (EventBody.resumed k p) =
    rw (read_nat-decimal v, read_nat-decimal w) refl
round_trip_of_body v w id at (EventBody.cancelled none) =
    rw (read_nat-decimal v, read_nat-decimal w) refl
round_trip_of_body v w id at (EventBody.cancelled (some r)) =
    rw (read_nat-decimal v, read_nat-decimal w) refl
round_trip_of_body v w id at EventBody.expired = rw (read_nat-decimal v, read_nat-decimal w) refl

-- An event is read back from its object as it was, whatever its variant and its values.
pub decode-encode : (event : ContinuationEvent) → decode (encode event) ≡ ok event
decode-encode event =
    round_trip_of_body event.schema_version event.version event.continuation_id event.occurred_at
      event.body

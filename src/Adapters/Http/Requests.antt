-- ===== src/Adapters/Http/Requests.antt =====
-- The bodies and the headers that the handlers of adapters/http/app.ts read. The test of date texts
-- is the schema library's, and so is the limit on the size of a body as it is received.
use pausemesh.Prelude.{
  ℕ, ◌+◌, Bool, true, false, not, ◌&&◌, ◌||◌, Option, none, some, List, [], ◌∷◌, Result, ok, err,
  ◌>>=◌, ◌>>◌, length, leb, ltb, ◌==◌, if◌then◌else◌,
}
use pausemesh.Prelude.Text.{Text, codes}
use pausemesh.Json.{Json, JsonObject, num, str, obj, Entries}
use pausemesh.Json.Fields.{field, only_keys}
use pausemesh.Json.Print.{stringify, byte_length}
use pausemesh.Domain.Types.{ContinuationId, max_safe_integer}
use pausemesh.Domain.Errors.{token_mismatch}
use pausemesh.Ports.Failure.{Failure, domain}
use pausemesh.Ports.Platform.{Date, Platform}
use pausemesh.Service.Inputs.{CreateContinuationInput, CancelContinuationInput}
use pausemesh.Storage.Numerals.{read_nat}
use pausemesh.Adapters.Identifiers.{is_space, drop_spaces, is_opaque_id, trim}
use pausemesh.Adapters.Http.Errors.{Thrown, payload_too_large, invalid_request, failure}

pub record Request : Type 0 where
  -- the body limit found more bytes than the limit
  pub oversized : Bool
  -- the number that the header denotes, if it is there and denotes one
  pub content_length : Option ℕ
  -- `none` is a body that is not JSON
  pub body : Option Json
  pub authorization : Option Text
  pub idempotency_key : Option Text

abbrev exceeds : Option ℕ → ℕ → Bool
exceeds none limit = false
exceeds (some n) limit = ltb limit n

within : ℕ → Option Json → Result Thrown Json
within limit none = err (failure Failure.internal_error)
within limit (some json) =
    if ltb limit (byte_length (stringify json)) then err payload_too_large else ok json

-- The body limit, and `readBoundedJson`.
unfoldable pub read_bounded_json : ℕ → Request → Result Thrown Json
unfolding within
read_bounded_json limit request =
    if request.oversized || exceeds request.content_length limit
    then err payload_too_large
    else within limit request.body

abbrev is_line_end : ℕ → Bool
is_line_end c = (c == 0xa) || (c == 0xd) || (c == 0x2028) || (c == 0x2029)

no_line_end : Text → Bool
no_line_end [] = true
no_line_end (c ∷ t) = not (is_line_end c) && no_line_end t

-- `c`, or the letter of the other case.
abbrev is_letter : ℕ → ℕ → Bool
is_letter lower c = (c == lower) || (c + 32 == lower)

-- What follows the letters of a scheme, in either case.
after_scheme : Text → Text → Option Text
after_scheme [] text = some text
after_scheme (c ∷ scheme) [] = none
after_scheme (c ∷ scheme) (d ∷ text) =
    let rest = after_scheme scheme text in if is_letter c d then rest else none

-- `\s+(.+)$`, and the trimmed group if it is not empty.
credentials : Option Text → Option Text
credentials none = none
credentials (some []) = none
credentials (some (c ∷ text)) =
    let token = trim text in
    if is_space c && (no_line_end (drop_spaces text) && ltb 0 (length token))
    then some token
    else none

-- `resumeToken`
token_of : ContinuationId → Option Text → Result Thrown Text
token_of id none = err (failure (domain (token_mismatch id)))
token_of id (some token) = ok token

unfoldable pub bearer : Option Text → Option Text
unfolding after_scheme credentials no_line_end
bearer none = none
bearer (some text) = credentials (after_scheme (codes "pausemesh") text)

unfoldable pub resume_token : Request → ContinuationId → Result Thrown Text
unfolding token_of
resume_token request id = token_of id (bearer request.authorization)

-- `idempotencyKey`
key_of : Option Text → Result Thrown Text
key_of none = err invalid_request
key_of (some text) =
    let key = trim text in
    if length key == 0 || ltb 200 (length key) then err invalid_request else ok key

unfoldable pub idempotency_key : Request → Result Thrown Text
unfolding key_of
idempotency_key request = key_of request.idempotency_key

checked_option : {A : Type 0} → Option A → Result Thrown (Option A)
checked_option none = err invalid_request
checked_option (some a) = ok (some a)

-- A field that may be absent.
unfoldable pub optional_field :
    {A : Type 0} → (Json → Option A) → Option Json → Result Thrown (Option A)
unfolding checked_option
optional_field read none = ok none
optional_field read (some json) = checked_option (read json)

unfoldable pub required_field : Option Json → Result Thrown Json
required_field none = err invalid_request
required_field (some json) = ok json

unfoldable pub strict : List Text → Entries → Result Thrown (Unit {0})
strict keys es = if only_keys keys es then ok tt else err invalid_request

unfoldable pub read_text : (Text → Bool) → Json → Option Text
read_text accepted (str s) = if accepted s then some s else none
read_text accepted _ = none

positive_safe : Option ℕ → Option ℕ
positive_safe none = none
positive_safe (some n) = if ltb 0 n && leb n max_safe_integer then some n else none

-- `z.number().int().positive().safe()`
read_version : Json → Option ℕ
unfolding positive_safe
read_version (num literal) = positive_safe (read_nat literal)
read_version _ = none

read_object : Json → Option JsonObject
read_object (obj es) = some es
read_object _ = none

-- `ResumeContinuationSchema`
unfoldable pub parse_resume : Json → Result Thrown Json
unfolding required_field strict
parse_resume (obj es) = do
  payload ← required_field (field (codes "payload") es)
  strict (codes "payload" ∷ []) es
  ok payload
parse_resume _ = err invalid_request

-- `CancelContinuationSchema`
unfoldable pub parse_cancel : ContinuationId → Json → Result Thrown CancelContinuationInput
unfolding optional_field read_version read_text strict
parse_cancel id (obj es) = do
  expected_version ← optional_field read_version (field (codes "expectedVersion") es)
  reason ← optional_field (read_text (λ s. leb (length s) 500)) (field (codes "reason") es)
  strict (codes "expectedVersion" ∷ codes "reason" ∷ []) es
  ok (record { continuation_id = id; expected_version = expected_version; reason = reason })
parse_cancel id _ = err invalid_request

module _ (platform : Platform) (is_datetime : Text → Bool) where
  date_option : Option Text → Option Date
  date_option none = none
  date_option (some text) = some (platform.parse_date text)

  -- `CreateContinuationSchema`
  unfoldable pub parse_create : Json → Result Thrown CreateContinuationInput
  unfolding optional_field required_field read_text read_object strict date_option
  parse_create (obj es) = do
    continuation_id ← optional_field (read_text is_opaque_id) (field (codes "continuationId") es)
    correlation_id ← optional_field (read_text is_opaque_id) (field (codes "correlationId") es)
    expires_at ← optional_field (read_text is_datetime) (field (codes "expiresAt") es)
    metadata ← optional_field read_object (field (codes "metadata") es)
    payload ← required_field (field (codes "payload") es)
    strict
        (codes "continuationId"
          ∷ codes "correlationId"
          ∷ codes "expiresAt"
          ∷ codes "metadata"
          ∷ codes "payload"
          ∷ [])
        es
    ok (record {
      continuation_id = continuation_id;
      correlation_id = correlation_id;
      expires_at = date_option expires_at;
      metadata = metadata;
      payload = payload;
    })
  parse_create _ = err invalid_request

-- ===== src/Storage/Serialization.antt =====
-- adapters/storage/event-serialization.ts. A stored text stands as the value that it prints, and a
-- text that is not JSON as `none`. The test of date texts is the schema library's.
use pausemesh.Prelude.{
  ℕ, suc, ◌≡◌, refl, sym, ◌∙◌, Bool, true, false, ◌&&◌, Option, none, some, List, [], ◌∷◌, map,
  Result, ok, err, ◌>>=◌, ◌>>◌, length, ltb, leb, ◌==◌, if◌then◌else◌, arith,
}
use pausemesh.Prelude.Text.{Text, text_eq}
use pausemesh.Json.{Json}
use pausemesh.Domain.Types.{ContinuationId, continuation_schema_version, max_safe_integer}
use pausemesh.Domain.Events.{ContinuationEvent, EventBody}
use pausemesh.Domain.Errors.{version_conflict, id_mismatch}
use pausemesh.Ports.Failure.{Failure, domain, type_error}
use pausemesh.Ports.EventStore.{check_batch}
use pausemesh.Service.Token.{is_token_hash}
use pausemesh.Storage.Codec.{encode, decode, decode-encode}

abbrev pub SerializedEvent : Type 0
SerializedEvent = Option Json

abbrev pub stored : ContinuationEvent → SerializedEvent
stored event = some (encode event)

-- `z.string().min(1)`
abbrev is_given : Text → Bool
is_given text = ltb 0 (length text)

module _ (is_datetime : Text → Bool) where
  accepts_body : EventBody → Bool
  accepts_body (EventBody.created correlation_id expires_at payload metadata hash) =
      is_given correlation_id && is_datetime expires_at && is_token_hash hash
  accepts_body (EventBody.resumed key payload) = is_given key
  accepts_body (EventBody.cancelled reason) = true
  accepts_body EventBody.expired = true

  -- `continuationEventSchema` on the values of an event.
  unfoldable pub accepts : ContinuationEvent → Bool
  unfolding accepts_body
  accepts event =
      (event.schema_version == continuation_schema_version)
      && is_given event.continuation_id
      && ltb 0 event.version
      && leb event.version max_safe_integer
      && is_datetime event.occurred_at
      && accepts_body event.body

  unfoldable pub parse_event : ContinuationEvent → Result Failure ContinuationEvent
  parse_event event = if accepts event then ok event else err type_error

  unfoldable pub deserialize_event : SerializedEvent → Result Failure ContinuationEvent
  deserialize_event none = err type_error
  deserialize_event (some json) = do event ← decode json; parse_event event

  -- `.map(deserializeEvent)`
  unfoldable pub deserialize_events : List SerializedEvent → Result Failure (List ContinuationEvent)
  deserialize_events [] = ok []
  deserialize_events (text ∷ texts) = do
    event ← deserialize_event text
    events ← deserialize_events texts
    ok (event ∷ events)

  unfoldable pub serialize_append_batch :
      ContinuationId → ℕ → List ContinuationEvent → Result Failure (List SerializedEvent)
  serialize_append_batch id version [] = ok []
  serialize_append_batch id version (event ∷ events) =
      let rest = serialize_append_batch id (suc version) events in
      if text_eq event.continuation_id id
      then if event.version == suc version
        then (do parsed ← parse_event event; texts ← rest; ok (some (encode parsed) ∷ texts))
        else err (domain (version_conflict id (suc version) event.version))
      else err (domain (id_mismatch id event.continuation_id))

  pub deserialize_stored :
      (event : ContinuationEvent)
      → accepts event ≡ true
      → deserialize_event (stored event) ≡ ok event
  unfolding deserialize_event parse_event
  deserialize_stored event a = rw (decode-encode event, a) refl

  serialize_step :
      (a b c : Bool) (x y : Failure) (event : ContinuationEvent) (r : Result Failure (Unit {0}))
      (rest : Result Failure (List SerializedEvent)) (texts : List SerializedEvent)
      → rest ≡ (r >> ok texts)
      → (if a
          then if b
            then (do
              parsed ← (if c then ok event else err type_error)
              others ← rest
              ok (some (encode parsed) ∷ others))
            else err x
          else err y)
        ≡ ((if a then if b then if c then r else err type_error else err x else err y)
            >> ok (stored event ∷ texts))
  serialize_step true true true x y event (ok tt) rest texts e = rw e refl
  serialize_step true true true x y event (err z) rest texts e = rw e refl
  serialize_step true true false x y event r rest texts e = refl
  serialize_step true false c x y event r rest texts e = refl
  serialize_step false b c x y event r rest texts e = refl

  checked_step :
      (id : ContinuationId) (version : ℕ) (event : ContinuationEvent)
      (events : List ContinuationEvent)
      → check_batch accepts id version (event ∷ events) ≡ ok tt
      → (accepts event ≡ true) × (check_batch accepts id (suc version) events ≡ ok tt)
  unfolding check_batch
  checked_step id version event events c = (ground arith, ground arith)

  -- A batch is serialized when the store contract accepts it, with the same error otherwise.
  pub serialize-check :
      (id : ContinuationId) (version : ℕ) (events : List ContinuationEvent)
      → serialize_append_batch id version events
        ≡ (check_batch accepts id version events >> ok (map stored events))
  unfolding serialize_append_batch check_batch parse_event
  serialize-check id version [] = refl
  serialize-check id version (event ∷ events) =
      serialize_step (text_eq event.continuation_id id) (event.version == suc version)
        (accepts event) _ _ event _ _ _ (serialize-check id (suc version) events)

  pub serialize_right :
      (id : ContinuationId) (version : ℕ) (events : List ContinuationEvent)
      → check_batch accepts id version events ≡ ok tt
      → serialize_append_batch id version events ≡ ok (map stored events)
  serialize_right id version events c = serialize-check id version events ∙ rw c refl

  pub serialize_wrong :
      (id : ContinuationId) (version : ℕ) (events : List ContinuationEvent) (e : Failure)
      → check_batch accepts id version events ≡ err e
      → serialize_append_batch id version events ≡ err e
  serialize_wrong id version events e c = serialize-check id version events ∙ rw c refl

  -- Events that passed the checks are read back from their texts as they were.
  pub deserialize_checked :
      (id : ContinuationId) (version : ℕ) (events : List ContinuationEvent)
      → check_batch accepts id version events ≡ ok tt
      → deserialize_events (map stored events) ≡ ok events
  unfolding deserialize_events check_batch
  deserialize_checked id version [] c = refl
  deserialize_checked id version (event ∷ events) c =
      let (a, rest) = checked_step id version event events c in
      rw (deserialize_stored event a, deserialize_checked id (suc version) events rest) refl

  serialized_checked :
      (id : ContinuationId) (version : ℕ) (events : List ContinuationEvent)
      (texts : List SerializedEvent) (r : Result Failure (Unit {0}))
      → check_batch accepts id version events ≡ r
      → (r >> ok (map stored events)) ≡ ok texts
      → deserialize_events texts ≡ ok events
  serialized_checked id version events texts (ok done) c e =
      let same : map stored events ≡ texts = ground arith in
      rw (← same) (deserialize_checked id version events c)
  serialized_checked id version events texts (err x) c e = cc

  -- A batch that was serialized is read back from its texts as it was, in its order.
  pub deserialize-serialize :
      (id : ContinuationId) (version : ℕ) (events : List ContinuationEvent)
      (texts : List SerializedEvent)
      → serialize_append_batch id version events ≡ ok texts
      → deserialize_events texts ≡ ok events
  deserialize-serialize id version events texts e =
      serialized_checked id version events texts (check_batch accepts id version events) refl
        (sym (serialize-check id version events) ∙ e)

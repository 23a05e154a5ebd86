-- ===== src/Domain/Events.antt =====
-- domain/events.ts. An event is its common fields and the fields of its type.
use pausemesh.Prelude.{ℕ, Option}
use pausemesh.Prelude.Text.{Text}
use pausemesh.Json.{Json, JsonObject}
use pausemesh.Domain.Types.{ContinuationId, IsoTimestamp}

pub data EventType : Type 0 where
  created resumed cancelled expired : EventType

pub data EventBody : Type 0 where
  created :
      (correlation_id : Text) (expires_at : IsoTimestamp) (payload : Json) (metadata : JsonObject)
      (resume_token_hash : Text)
      → EventBody
  resumed : (idempotency_key : Text) (resume_payload : Json) → EventBody
  cancelled : (reason : Option Text) → EventBody
  expired : EventBody

pub record ContinuationEvent : Type 0 where
  pub schema_version : ℕ
  pub continuation_id : ContinuationId
  pub version : ℕ
  pub occurred_at : IsoTimestamp
  pub body : EventBody

abbrev pub type_of : EventBody → EventType
type_of (EventBody.created _ _ _ _ _) = EventType.created
type_of (EventBody.resumed _ _) = EventType.resumed
type_of (EventBody.cancelled _) = EventType.cancelled
type_of EventBody.expired = EventType.expired

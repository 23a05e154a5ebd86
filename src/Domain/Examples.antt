-- ===== src/Domain/Examples.antt =====
-- A lifecycle replayed, and the theorem on replays at it.
use pausemesh.Prelude.{◌≡◌, refl, ◌↔◌, some, none, List, [], ◌∷◌, ok}
use pausemesh.Prelude.Text.{codes, text_eq}
use pausemesh.Json.{null, end}
use pausemesh.Domain.Types.{ContinuationEnvelope, Lifecycle}
use pausemesh.Domain.Events.{ContinuationEvent, EventBody}
use pausemesh.Domain.Reducer.{reduce_continuation, replay_continuation}
use pausemesh.Domain.Reducer.Replay.{History, replay_continuation_iff}

abbrev events : List ContinuationEvent
events =
    record {
      schema_version = 1;
      continuation_id = codes "c";
      version = 1;
      occurred_at = codes "t1";
      body = EventBody.created (codes "thread") (codes "t9") null end (codes "hash");
    }
    ∷ record {
      schema_version = 1;
      continuation_id = codes "c";
      version = 2;
      occurred_at = codes "t2";
      body = EventBody.cancelled none;
    }
    ∷ []

abbrev cancelled_state : ContinuationEnvelope
cancelled_state = record {
  schema_version = 1;
  continuation_id = codes "c";
  correlation_id = codes "thread";
  version = 2;
  created_at = codes "t1";
  expires_at = codes "t9";
  payload = null;
  metadata = end;
  lifecycle = Lifecycle.cancelled (codes "t2") none;
}

replayed : replay_continuation events ≡ ok (some cancelled_state)
unfolding replay_continuation reduce_continuation text_eq
replayed = refl

replay_continuation_iff_example :
    (replay_continuation events ≡ ok (some cancelled_state)) ↔ History events cancelled_state
replay_continuation_iff_example = replay_continuation_iff events cancelled_state

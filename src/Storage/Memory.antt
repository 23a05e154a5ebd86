-- ===== src/Storage/Memory.antt =====
-- adapters/storage/in-memory-event-store.ts
use mathlib.Core.List.{append-nil, map-append}
use pausemesh.Prelude.{
  ℕ, ◌≡◌, refl, sym, ◌∙◌, ap, Bool, List, [], ◌∷◌, ◌++◌, map, Result, ok, err, length, length-map,
  ==_iff, ==_apart, ◌==◌, if◌then◌else◌, Bool-cases, inl, inr,
}
use pausemesh.Prelude.Text.{Text, text_eq, text_eq_iff}
use pausemesh.Domain.Types.{ContinuationId}
use pausemesh.Domain.Events.{ContinuationEvent}
use pausemesh.Domain.Errors.{version_conflict}
use pausemesh.Ports.Failure.{Failure, domain}
use pausemesh.Ports.EventStore.{Streams, append_events}
use pausemesh.Ports.EventStore.Streams.{Appended, append_events-Appended}
use pausemesh.Storage.Serialization.{
  SerializedEvent, accepts, deserialize_events, serialize_append_batch, stored, serialize_right,
  serialize_wrong, deserialize_checked,
}
use pausemesh.Storage.Contract.{
  Operation, Store, answers, contract, Implements, answers-Implements, appended_batch,
  append_events-refused, no_events, no_events-IsChecked,
}

-- `#streams`, a missing key read as the empty list.
abbrev pub TextStreams : Type 0
TextStreams = ContinuationId → List SerializedEvent

-- The state of a new store.
abbrev pub no_texts : TextStreams
no_texts id = []

-- `#streams.set(id, texts)`
set_stream : ContinuationId → List SerializedEvent → TextStreams → TextStreams
set_stream id texts streams other = if text_eq other id then texts else streams other

commit : ContinuationId → List SerializedEvent → List SerializedEvent → TextStreams → TextStreams
unfolding set_stream
commit id stream [] streams = streams
commit id stream texts streams = set_stream id (stream ++ texts) streams

module _ (is_datetime : Text → Bool) where
  unfoldable pub load : ContinuationId → TextStreams → Result Failure (List ContinuationEvent)
  load id streams = deserialize_events is_datetime (streams id)

  -- An error is thrown before the map is written.
  finish_append :
      ContinuationId
      → TextStreams
      → Result Failure (List SerializedEvent)
      → Result Failure (Unit {0}) × TextStreams
  unfolding commit
  finish_append id streams (err e) = (err e, streams)
  finish_append id streams (ok texts) = (ok tt, commit id (streams id) texts streams)

  unfoldable pub append :
      ContinuationId
      → ℕ
      → List ContinuationEvent
      → TextStreams
      → Result Failure (Unit {0}) × TextStreams
  unfolding finish_append
  append id expected_version events streams =
      if length (streams id) == expected_version
      then finish_append id streams (serialize_append_batch is_datetime id expected_version events)
      else (err (domain (version_conflict id expected_version (length (streams id)))), streams)

  abbrev pub memory_store : Store TextStreams
  memory_store = record { load = load; append = append }

  abbrev pub Holds : TextStreams → Streams → Type 0
  Holds texts streams = (id : ContinuationId) → texts id ≡ map stored (streams id)

  commit-Holds :
      (id : ContinuationId) (version : ℕ) (events : List ContinuationEvent) (texts : TextStreams)
      (before after : Streams)
      → Holds texts before
      → Appended id version events before after
      → Holds (commit id (texts id) (map stored events) texts) after
  unfolding commit set_stream
  commit-Holds id version [] texts before after h a other = elim (Bool-cases (text_eq other id)) [
    | inl same ↦ rw ((text_eq_iff other id).0 same, a.extended, h id, append-nil (before id)) refl
    | inr different ↦ rw (a.others other different) (h other)
  ]
  commit-Holds id version (event ∷ events) texts before after h a other =
      elim (Bool-cases (text_eq other id)) [
        | inl same ↦ rw (same, (text_eq_iff other id).0 same, a.extended, h id, map-append) refl
        | inr different ↦ rw (different, a.others other different) (h other)
      ]

  memory_length :
      (id : ContinuationId) (texts : TextStreams) (streams : Streams)
      → Holds texts streams
      → length (texts id) ≡ length (streams id)
  memory_length id texts streams h = ap length (h id) ∙ length-map stored (streams id)

  memory_appends :
      (id : ContinuationId) (version : ℕ) (events : List ContinuationEvent) (texts : TextStreams)
      (before after : Streams)
      → Holds texts before
      → append_events (accepts is_datetime) id version events before ≡ ok after
      → ((append id version events texts).0 ≡ ok tt)
        × Holds (append id version events texts).1 after
  unfolding append
  memory_appends id version events texts before after h e =
      let a = append_events-Appended (accepts is_datetime) id version events before after e in
      let fits =
        (==_iff (length (texts id)) version).1 (memory_length id texts before h ∙ a.fenced) in
      let texts_of =
        serialize_right is_datetime id version events
          (appended_batch (accepts is_datetime) id version events before after e) in
      rw (fits, texts_of) (refl, commit-Holds id version events texts before after h a)

  memory_refuses :
      (id : ContinuationId) (version : ℕ) (events : List ContinuationEvent) (texts : TextStreams)
      (before : Streams) (e : Failure)
      → Holds texts before
      → append_events (accepts is_datetime) id version events before ≡ err e
      → ((append id version events texts).0 ≡ err e)
        × Holds (append id version events texts).1 before
  unfolding append
  memory_refuses id version events texts before e h r =
      let n = memory_length id texts before h in
      elim (append_events-refused (accepts is_datetime) id version events before e r) [
        | inl (stale, error) ↦
            rw (==_apart (length (texts id)) version (λ same. stale (sym n ∙ same)), error, n)
              (refl, h)
        | inr (fits, wrong) ↦
            rw
              (
                (==_iff (length (texts id)) version).1 (n ∙ fits),
                serialize_wrong is_datetime id version events e wrong,
              )
              (refl, h)
      ]

  memory_store-Implements : Implements (accepts is_datetime) memory_store Holds
  unfolding load
  memory_store-Implements = record {
    loads_right = λ id texts streams h c.
        ap (deserialize_events is_datetime) (h id)
        ∙ deserialize_checked is_datetime id 0 (streams id) (c id);
    appends_right = λ id version events texts before after h c e.
        memory_appends id version events texts before after h e;
    refuses_right = λ id version events texts before e h c r.
        memory_refuses id version events texts before e h r;
  }

  -- The in-memory store gives, to every sequence of loads and appends from its construction on, the
  -- replies of the contract, errors included, and reads back the events that were appended.
  pub memory_store-answers :
      (operations : List Operation)
      → answers memory_store operations no_texts
        ≡ answers (contract (accepts is_datetime)) operations no_events
  memory_store-answers operations =
      answers-Implements (accepts is_datetime) memory_store-Implements operations no_texts no_events
        (λ id. refl) (no_events-IsChecked (accepts is_datetime))

-- ===== src/Storage/Examples.antt =====
-- The stores on concrete operations.
use pausemesh.Prelude.{
  ◌≡◌, refl, Bool, true, none, List, [], ◌∷◌, map, ok, err, length, ltb, if◌then◌else◌, arith,
}
use pausemesh.Prelude.Text.{Text, codes, text_eq}
use pausemesh.Json.{Json, Entries}
use pausemesh.Domain.Events.{ContinuationEvent, EventBody}
use pausemesh.Domain.Errors.{version_conflict}
use pausemesh.Ports.Failure.{Failure, domain, store_error, stream_too_large}
use pausemesh.Ports.EventStore.{Streams, extend, append_events, check_batch}
use pausemesh.Service.Token.{is_token_hash}
use pausemesh.Storage.Numerals.{decimal, read_nat}
use pausemesh.Storage.Codec.{encode, decode}
use pausemesh.Storage.Serialization.{
  accepts, parse_event, deserialize_event, deserialize_events, serialize_append_batch, stored,
  deserialize-serialize,
}
use pausemesh.Storage.Contract.{
  Operation, loads, appends, Answer, loaded, appended, answers, contract, no_events,
}
use pausemesh.Storage.Contract.{append_events-IsChecked, no_events-IsChecked}
use pausemesh.Storage.Postgres
use pausemesh.Storage.Postgres.{Database}
use pausemesh.Storage.Postgres.Loading.{Holds, IsListed, load-IsListed}
use pausemesh.Storage.Postgres.Refinement.{append-Holds, append-refused}
use pausemesh.Storage.Memory
use pausemesh.Storage.Memory.{memory_store, no_texts, memory_store-answers}
use pausemesh.Storage.Sqlite
use pausemesh.Storage.Sqlite.{
  sqlite_store, select, order_by_version, max_version, is_taken, insert, insert_batch, read_row,
  read_rows, append_in_transaction,
}
use pausemesh.Storage.Sqlite.Refinement.{sqlite_store-answers}

abbrev any_text : Text → Bool
any_text text = true

abbrev hash : Text
hash = codes "00112233445566778899aabbccddeeff00112233445566778899AABBCCDDEEFF"

abbrev first_event : ContinuationEvent
first_event = record {
  schema_version = 1;
  continuation_id = codes "c";
  version = 1;
  occurred_at = codes "t";
  body = EventBody.created (codes "r") (codes "u") (Json.num (codes "1.5")) Entries.end hash;
}

abbrev last_event : ContinuationEvent
last_event = record first_event { version = 2; body = EventBody.cancelled none }

-- A creation, a stale append that is refused, a cancellation, and a load of both.
abbrev operations : List Operation
operations =
    appends (codes "c") 0 (first_event ∷ [])
    ∷ appends (codes "c") 0 (last_event ∷ [])
    ∷ appends (codes "c") 1 (last_event ∷ [])
    ∷ loads (codes "c")
    ∷ []

abbrev expected : List Answer
expected =
    appended (ok tt)
    ∷ appended (err (domain (version_conflict (codes "c") 0 1)))
    ∷ appended (ok tt)
    ∷ loaded (ok (first_event ∷ last_event ∷ []))
    ∷ []

memory_replies : answers (memory_store any_text) operations no_texts ≡ expected
unfolding Memory.load Memory.append serialize_append_batch deserialize_events deserialize_event
    parse_event accepts text_eq is_token_hash encode decode decimal read_nat
memory_replies = refl

sqlite_replies : answers (sqlite_store any_text) operations [] ≡ expected
unfolding Sqlite.load Sqlite.append append_in_transaction select order_by_version max_version
    is_taken insert insert_batch read_row read_rows serialize_append_batch deserialize_event
    parse_event accepts text_eq is_token_hash encode decode decimal read_nat
sqlite_replies = refl

memory_store-answers_example :
    answers (memory_store any_text) operations no_texts
    ≡ answers (contract (accepts any_text)) operations no_events
memory_store-answers_example = memory_store-answers any_text operations

sqlite_store-answers_example :
    answers (sqlite_store any_text) operations []
    ≡ answers (contract (accepts any_text)) operations no_events
sqlite_store-answers_example = sqlite_store-answers any_text operations

serialized :
    serialize_append_batch any_text (codes "c") 0 (first_event ∷ last_event ∷ [])
    ≡ ok (map stored (first_event ∷ last_event ∷ []))
unfolding serialize_append_batch parse_event accepts text_eq is_token_hash
serialized = refl

deserialize-serialize_example :
    deserialize_events any_text (map stored (first_event ∷ last_event ∷ []))
    ≡ ok (first_event ∷ last_event ∷ [])
deserialize-serialize_example =
    deserialize-serialize any_text (codes "c") 0 (first_event ∷ last_event ∷ [])
      (map stored (first_event ∷ last_event ∷ [])) serialized

abbrev empty_database : Database
empty_database = record { heads = λ id. none; rows = [] }

empty_database-Holds : Holds 32 empty_database no_events
unfolding select
empty_database-Holds id = (refl, refl, omega arith)

abbrev one_stream : Streams
one_stream = extend (codes "c") (first_event ∷ []) no_events

accepted :
    append_events (accepts any_text) (codes "c") 0 (first_event ∷ []) no_events ≡ ok one_stream
unfolding append_events check_batch accepts text_eq is_token_hash
accepted = refl

one-Holds :
    Holds 32
      (Postgres.append any_text 32 (codes "c") 0 (first_event ∷ []) empty_database).1
      one_stream
one-Holds =
    (append-Holds any_text 32 (codes "c") 0 (first_event ∷ []) empty_database no_events one_stream
      (omega arith) (omega arith) empty_database-Holds accepted).1

append-Holds_example :
    ((Postgres.append any_text 32 (codes "c") 0 (first_event ∷ []) empty_database).0 ≡ ok tt)
    × Holds 32
        (Postgres.append any_text 32 (codes "c") 0 (first_event ∷ []) empty_database).1
        one_stream
append-Holds_example =
    append-Holds any_text 32 (codes "c") 0 (first_event ∷ []) empty_database no_events one_stream
      (omega arith) (omega arith) empty_database-Holds accepted

abbrev conflict : Failure
conflict = domain (version_conflict (codes "c") 1 0)

refused : append_events (accepts any_text) (codes "c") 1 (last_event ∷ []) no_events ≡ err conflict
unfolding append_events
refused = refl

append-refused_example :
    (x : Failure) × (Postgres.append any_text 32 (codes "c") 1 (last_event ∷ []) empty_database
      ≡ (err x, empty_database))
append-refused_example =
    append-refused any_text 32 (codes "c") 1 (last_event ∷ []) empty_database no_events conflict
      empty_database-Holds refused

one-IsListed :
    IsListed
      (Postgres.append any_text 32 (codes "c") 0 (first_event ∷ []) empty_database).1
      one_stream
one-IsListed id = let (head, listed, short) = one-Holds id in (head, listed)

load-IsListed_example :
    Postgres.load any_text 32
      (codes "c")
      (Postgres.append any_text 32 (codes "c") 0 (first_event ∷ []) empty_database).1
    ≡ (if ltb 32 (length (one_stream (codes "c")))
        then err (store_error stream_too_large)
        else ok (one_stream (codes "c")))
load-IsListed_example =
    load-IsListed any_text 32 (codes "c")
      (Postgres.append any_text 32 (codes "c") 0 (first_event ∷ []) empty_database).1 one_stream
      one-IsListed
      (append_events-IsChecked (accepts any_text) (codes "c") 0 (first_event ∷ []) no_events
        one_stream (no_events-IsChecked (accepts any_text)) accepted)

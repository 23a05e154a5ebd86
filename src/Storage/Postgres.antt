-- ===== src/Storage/Postgres.antt =====
-- adapters/storage/postgres-event-store.ts: the table of the heads of streams, and the rows of the
-- table of events in the order of their insertion. An append is one transaction, whose update of
-- the head locks the stream.
pub mod Loading
pub mod Appending
pub mod Refinement
use pausemesh.Prelude.{
  ℕ, zero, suc, ◌+◌, Bool, true, false, not, ◌||◌, Option, none, some, List, [], ◌∷◌, Result, ok,
  err, ◌>>=◌, ◌>>◌, length, leb, ltb, ◌==◌, if◌then◌else◌,
}
use pausemesh.Prelude.Text.{Text, text_eq}
use pausemesh.Domain.Types.{ContinuationId, max_safe_integer}
use pausemesh.Domain.Events.{ContinuationEvent}
use pausemesh.Domain.Errors.{version_conflict}
use pausemesh.Ports.Failure.{
  Failure, StoreErrorCode, corrupt_stream, stream_too_large, domain, store_error, range_error,
}
use pausemesh.Storage.Serialization.{SerializedEvent, deserialize_event, serialize_append_batch}
use pausemesh.Storage.Contract.{Store}
use pausemesh.Storage.Sqlite.{Row, select, order_by_version, insert_batch}

pub record Database : Type 0 where
  -- `continuation_streams`
  pub heads : ContinuationId → Option ℕ
  -- `continuation_events`
  pub rows : List Row

unfoldable pub set_head :
    ContinuationId → ℕ → (ContinuationId → Option ℕ) → ContinuationId → Option ℕ
set_head id version heads other = if text_eq other id then some version else heads other

-- `LIMIT`
unfoldable pub take {ℓ} : {A : Type ℓ} → ℕ → List A → List A
take zero xs = []
take (suc n) [] = []
take (suc n) (x ∷ xs) = x ∷ take n xs

-- The rows of a `LEFT JOIN`: a stream without events has one.
abbrev pub joined_count : List Row → ℕ
joined_count [] = 1
joined_count rows = length rows

-- `actualVersionFromRows`
abbrev pub actual_version : Option ℕ → ℕ
actual_version none = 0
actual_version (some version) = version

-- `INSERT ... ON CONFLICT DO NOTHING` of a head of version zero.
ensure_head : ContinuationId → Option ℕ → Database → Database
ensure_head id none database = record database { heads = set_head id 0 database.heads }
ensure_head id (some version) database = database

-- `UPDATE ... WHERE current_version = $2`: none if it meets no row.
fence_head : ContinuationId → ℕ → ℕ → Option ℕ → Database → Option Database
fence_head id expected next none database = none
fence_head id expected next (some version) database =
    if version == expected
    then some (record database { heads = set_head id next database.heads })
    else none

module _ (is_datetime : Text → Bool) where
  -- Every error of the deserialization is reported as a corrupt stream.
  reported : Result Failure ContinuationEvent → Result Failure ContinuationEvent
  reported (ok event) = ok event
  reported (err e) = err (store_error corrupt_stream)

  unfoldable pub read_row : ContinuationId → ℕ → Row → Result Failure ContinuationEvent
  unfolding reported
  read_row id index row =
      if row.version == suc index
      then (do
        event ← reported (deserialize_event is_datetime row.event_json)
        if not (text_eq event.continuation_id id) || not (event.version == row.version)
            then err (store_error corrupt_stream)
            else ok event)
      else err (store_error corrupt_stream)

  unfoldable pub read_rows : ContinuationId → ℕ → List Row → Result Failure (List ContinuationEvent)
  read_rows id index [] = ok []
  read_rows id index (row ∷ rows) = do
    event ← read_row id index row
    events ← read_rows id (suc index) rows
    ok (event ∷ events)

  -- The joined row of a stream without events has no version.
  unfoldable pub read_joined : ContinuationId → List Row → Result Failure (List ContinuationEvent)
  read_joined id [] = err (store_error corrupt_stream)
  read_joined id (row ∷ rows) = read_rows id 0 (row ∷ rows)

  unfoldable pub load_from :
      ℕ → ContinuationId → Option ℕ → List Row → Result Failure (List ContinuationEvent)
  load_from limit id none rows = ok []
  load_from limit id (some current_version) rows =
      if ltb limit current_version || ltb limit (joined_count rows)
      then err (store_error stream_too_large)
      else if current_version == 0 || not (joined_count rows == current_version)
      then err (store_error corrupt_stream)
      else read_joined id rows

  -- `limit` is `maxEventsPerStream`.
  unfoldable pub load : ℕ → ContinuationId → Database → Result Failure (List ContinuationEvent)
  load limit id database =
      load_from limit id (database.heads id)
        (take (suc limit) (order_by_version (select id database.rows)))

  -- The statements of the transaction.
  insert_fenced :
      ContinuationId
      → ℕ
      → List SerializedEvent
      → Option ℕ
      → Option Database
      → Result Failure Database
  insert_fenced id expected texts head none =
      err (domain (version_conflict id expected (actual_version head)))
  insert_fenced id expected texts head (some database) = do
    rows ← insert_batch id expected texts database.rows
    ok (record database { rows = rows })

  with_head : ContinuationId → ℕ → Database → Database
  unfolding ensure_head
  with_head id zero database = ensure_head id (database.heads id) database
  with_head id (suc version) database = database

  unfoldable pub transaction :
      ContinuationId → ℕ → List SerializedEvent → Database → Result Failure Database
  unfolding insert_fenced with_head fence_head
  transaction id expected texts database =
      let opened = with_head id expected database in
      insert_fenced id expected texts (opened.heads id)
        (fence_head id expected (expected + length texts) (opened.heads id) opened)

  -- A batch without events compares the head alone.
  unfoldable pub append_texts :
      ContinuationId → ℕ → Database → List SerializedEvent → Result Failure Database
  append_texts id expected database [] =
      if actual_version (database.heads id) == expected
      then ok database
      else err (domain (version_conflict id expected (actual_version (database.heads id))))
  append_texts id expected database (text ∷ texts) = transaction id expected (text ∷ texts) database

  -- `validateExpectedVersion` and the limit, then the batch.
  unfoldable pub append_checked :
      ℕ → ContinuationId → ℕ → List ContinuationEvent → Database → Result Failure Database
  append_checked limit id expected events database =
      if not (leb (expected + length events) max_safe_integer)
      then err range_error
      else if ltb limit (expected + length events)
      then err (store_error stream_too_large)
      else (do
        texts ← serialize_append_batch is_datetime id expected events
        append_texts id expected database texts)

  -- `COMMIT`, or `ROLLBACK` to the tables before.
  abbrev pub end_transaction :
      Database → Result Failure Database → Result Failure (Unit {0}) × Database
  end_transaction before (ok after) = (ok tt, after)
  end_transaction before (err e) = (err e, before)

  unfoldable pub append :
      ℕ
      → ContinuationId
      → ℕ
      → List ContinuationEvent
      → Database
      → Result Failure (Unit {0}) × Database
  append limit id expected events database =
      end_transaction database (append_checked limit id expected events database)

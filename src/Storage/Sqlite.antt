-- ===== src/Storage/Sqlite.antt =====
-- adapters/storage/sqlite-event-store.ts: the table as its rows in the order of their insertion. An
-- append is one transaction, which no other writer interleaves with.
pub mod Table
pub mod Refinement
use pausemesh.Prelude.{
  ℕ, suc, ◌+◌, ◌≡◌, refl, Bool, true, false, not, ◌&&◌, ◌||◌, Option, none, some, List, [], ◌∷◌,
  ◌++◌, Result, ok, err, ◌>>=◌, ◌>>◌, length, leb, ltb, ◌==◌, if◌then◌else◌,
}
use pausemesh.Prelude.Text.{Text, text_eq}
use pausemesh.Domain.Types.{ContinuationId}
use pausemesh.Domain.Events.{ContinuationEvent}
use pausemesh.Domain.Errors.{version_conflict, id_mismatch}
use pausemesh.Ports.Failure.{Failure, domain, storage_error}
use pausemesh.Storage.Serialization.{SerializedEvent, deserialize_event, serialize_append_batch}
use pausemesh.Storage.Contract.{Store}

-- A row of `continuation_events`.
pub record Row : Type 0 where
  pub continuation_id : ContinuationId
  pub version : ℕ
  pub event_json : SerializedEvent

-- `WHERE continuation_id = ?`
unfoldable pub select : ContinuationId → List Row → List Row
select id [] = []
select id (row ∷ rows) =
    let rest = select id rows in if text_eq row.continuation_id id then row ∷ rest else rest

insert_sorted : Row → List Row → List Row
insert_sorted row [] = row ∷ []
insert_sorted row (first ∷ rows) =
    let later = insert_sorted row rows in
    if leb row.version first.version then row ∷ first ∷ rows else first ∷ later

-- `ORDER BY version ASC`
unfoldable pub order_by_version : List Row → List Row
unfolding insert_sorted
order_by_version [] = []
order_by_version (row ∷ rows) = insert_sorted row (order_by_version rows)

abbrev larger : ℕ → ℕ → ℕ
larger a b = if leb a b then b else a

-- `COALESCE(MAX(version), 0)`
unfoldable pub max_version : List Row → ℕ
max_version [] = 0
max_version (row ∷ rows) = larger row.version (max_version rows)

-- `UNIQUE (continuation_id, version)`
unfoldable pub is_taken : ContinuationId → ℕ → List Row → Bool
is_taken id version [] = false
is_taken id version (row ∷ rows) =
    (text_eq row.continuation_id id && (row.version == version)) || is_taken id version rows

-- `CHECK (json_valid(event_json))`
abbrev is_json : SerializedEvent → Bool
is_json none = false
is_json (some json) = true

-- One `INSERT`, under the constraints of the table.
unfoldable pub insert : ContinuationId → ℕ → SerializedEvent → List Row → Result Failure (List Row)
insert id version text rows =
    if is_taken id version rows || not (ltb 0 version) || not (is_json text)
    then err storage_error
    else ok (rows ++ record { continuation_id = id; version = version; event_json = text } ∷ [])

-- The loop over the batch, whose first event has the version after `version`.
unfoldable pub insert_batch :
    ContinuationId → ℕ → List SerializedEvent → List Row → Result Failure (List Row)
insert_batch id version [] rows = ok rows
insert_batch id version (text ∷ texts) rows = do
  after ← insert id (suc version) text rows
  insert_batch id (suc version) texts after

module _ (is_datetime : Text → Bool) where
  -- The checks of the row at an index.
  unfoldable pub read_row : ContinuationId → ℕ → Row → Result Failure ContinuationEvent
  read_row id index row =
      if row.version == suc index
      then (do
        event ← deserialize_event is_datetime row.event_json
        if text_eq event.continuation_id id
            then if event.version == row.version
              then ok event
              else err (domain (version_conflict id row.version event.version))
            else err (domain (id_mismatch id event.continuation_id)))
      else err (domain (version_conflict id (suc index) row.version))

  unfoldable pub read_rows : ContinuationId → ℕ → List Row → Result Failure (List ContinuationEvent)
  read_rows id index [] = ok []
  read_rows id index (row ∷ rows) = do
    event ← read_row id index row
    events ← read_rows id (suc index) rows
    ok (event ∷ events)

  unfoldable pub load : ContinuationId → List Row → Result Failure (List ContinuationEvent)
  load id rows = read_rows id 0 (order_by_version (select id rows))

  -- The statements between `BEGIN IMMEDIATE` and `COMMIT`.
  unfoldable pub append_in_transaction :
      ContinuationId → ℕ → List ContinuationEvent → List Row → Result Failure (List Row)
  append_in_transaction id expected_version events rows =
      if max_version (select id rows) == expected_version
      then (do
        texts ← serialize_append_batch is_datetime id expected_version events
        insert_batch id expected_version texts rows)
      else err (domain (version_conflict id expected_version (max_version (select id rows))))

  -- `COMMIT`, or `ROLLBACK` to the rows before.
  abbrev pub end_transaction :
      List Row → Result Failure (List Row) → Result Failure (Unit {0}) × List Row
  end_transaction before (ok after) = (ok tt, after)
  end_transaction before (err e) = (err e, before)

  unfoldable pub append :
      ContinuationId → ℕ → List ContinuationEvent → List Row → Result Failure (Unit {0}) × List Row
  append id expected_version events rows =
      end_transaction rows (append_in_transaction id expected_version events rows)

  abbrev pub sqlite_store : Store (List Row)
  sqlite_store = record { load = load; append = append }

-- ===== src/Storage/Sqlite/Refinement.antt =====
-- The SQLite store gives the replies of the contract of ports/event-store.ts.
use pausemesh.Prelude.{
  ℕ, suc, ◌≡◌, refl, sym, ◌∙◌, ap, Bool, List, [], ◌∷◌, ◌++◌, ok, err, length, ==_iff, ==_apart,
  arith, Bool-cases, inl, inr,
}
use pausemesh.Prelude.Text.{Text, text_eq, text_eq_iff, apart}
use pausemesh.Domain.Types.{ContinuationId}
use pausemesh.Domain.Events.{ContinuationEvent}
use pausemesh.Ports.Failure.{Failure}
use pausemesh.Ports.EventStore.{Streams, check_batch, append_events}
use pausemesh.Ports.EventStore.Streams.{Appended, append_events-Appended}
use pausemesh.Storage.Serialization.{accepts, deserialize_stored, serialize_right, serialize_wrong}
use pausemesh.Storage.Contract.{
  Operation, answers, contract, IsChecked, checked_head, Implements, answers-Implements,
  appended_batch, append_events-refused, no_events, no_events-IsChecked,
}
use pausemesh.Storage.Sqlite.{
  Row, select, max_version, read_row, read_rows, load, append, append_in_transaction, sqlite_store,
}
use pausemesh.Storage.Sqlite.Table.{
  numbered, order-numbered, max_version-numbered, numbered-append, select-numbered, select_other,
  free_versions, insert_batch-stored,
}

abbrev pub Tabled : List Row → Streams → Type 0
Tabled rows streams = (id : ContinuationId) → select id rows ≡ numbered id 0 (streams id)

module _ (is_datetime : Text → Bool) where
  read_rows-numbered :
      (id : ContinuationId) (version : ℕ) (events : List ContinuationEvent)
      → check_batch (accepts is_datetime) id version events ≡ ok tt
      → read_rows is_datetime id version (numbered id version events) ≡ ok events
  unfolding read_rows read_row
  read_rows-numbered id version [] c = refl
  read_rows-numbered id version (event ∷ events) c =
      let (identity, number, valid, rest) =
        checked_head (accepts is_datetime) id version event events c in
      rw
        (
          (==_iff (suc version) (suc version)).1 refl,
          deserialize_stored is_datetime event valid,
          identity,
          number,
          read_rows-numbered id (suc version) events rest,
        )
        refl

  sqlite_loads :
      (id : ContinuationId) (rows : List Row) (streams : Streams)
      → Tabled rows streams
      → IsChecked (accepts is_datetime) streams
      → load is_datetime id rows ≡ ok (streams id)
  unfolding load
  sqlite_loads id rows streams h c =
      rw (h id, order-numbered id 0 (streams id)) (read_rows-numbered id 0 (streams id) (c id))

  Tabled-after :
      (id : ContinuationId) (version : ℕ) (events : List ContinuationEvent) (rows : List Row)
      (before after : Streams)
      → Tabled rows before
      → Appended id version events before after
      → Tabled (rows ++ numbered id version events) after
  Tabled-after id version events rows before after h a other =
      elim (Bool-cases (text_eq other id)) [
        | inl same ↦
            rw
              (
                (text_eq_iff other id).0 same,
                a.extended,
                numbered-append id 0 version (before id) events (omega (arith, a.fenced)),
              )
              (select-numbered id rows version events
                ∙ ap (λ l. l ++ numbered id version events) (h id))
        | inr different ↦
            rw (a.others other different)
              (select_other id other rows version events (apart id other different) ∙ h other)
      ]

  max_right :
      (id : ContinuationId) (rows : List Row) (streams : Streams)
      → Tabled rows streams
      → max_version (select id rows) ≡ length (streams id)
  max_right id rows streams h = ap max_version (h id) ∙ max_version-numbered id (streams id)

  sqlite_appends :
      (id : ContinuationId) (version : ℕ) (events : List ContinuationEvent) (rows : List Row)
      (before after : Streams)
      → Tabled rows before
      → append_events (accepts is_datetime) id version events before ≡ ok after
      → append is_datetime id version events rows ≡ (ok tt, rows ++ numbered id version events)
  unfolding append append_in_transaction
  sqlite_appends id version events rows before after h e =
      let a = append_events-Appended (accepts is_datetime) id version events before after e in
      rw
        (
          (==_iff (max_version (select id rows)) version).1 (max_right id rows before h ∙ a.fenced),
          serialize_right is_datetime id version events
              (appended_batch (accepts is_datetime) id version events before after e),
          insert_batch-stored id version events rows (λ v less.
              free_versions id rows (before id) v (h id) (omega (arith, a.fenced, less))),
        )
        refl

  sqlite_refuses :
      (id : ContinuationId) (version : ℕ) (events : List ContinuationEvent) (rows : List Row)
      (before : Streams) (e : Failure)
      → Tabled rows before
      → append_events (accepts is_datetime) id version events before ≡ err e
      → append is_datetime id version events rows ≡ (err e, rows)
  unfolding append append_in_transaction
  sqlite_refuses id version events rows before e h r =
      let n = max_right id rows before h in
      elim (append_events-refused (accepts is_datetime) id version events before e r) [
        | inl (stale, error) ↦
            rw
              (
                ==_apart (max_version (select id rows)) version (λ same. stale (sym n ∙ same)),
                error,
                n,
              )
              refl
        | inr (fits, wrong) ↦
            rw
              (
                (==_iff (max_version (select id rows)) version).1 (n ∙ fits),
                serialize_wrong is_datetime id version events e wrong,
              )
              refl
      ]

  sqlite_store-Implements : Implements (accepts is_datetime) (sqlite_store is_datetime) Tabled
  sqlite_store-Implements = record {
    loads_right = λ id rows streams h c. sqlite_loads id rows streams h c;
    appends_right = λ id version events rows before after h c e.
        rw (sqlite_appends id version events rows before after h e) (
          refl,
          Tabled-after id version events rows before after h
              (append_events-Appended (accepts is_datetime) id version events before after e),
        );
    refuses_right = λ id version events rows before e h c r.
        rw (sqlite_refuses id version events rows before e h r) (refl, h);
  }

  -- The SQLite store gives, to every sequence of loads and appends on an empty table, the replies
  -- of the contract, errors included: no append leaves a part of its batch, and a stream is read
  -- back in the order of its versions as it was appended.
  pub sqlite_store-answers :
      (operations : List Operation)
      → answers (sqlite_store is_datetime) operations []
        ≡ answers (contract (accepts is_datetime)) operations no_events
  unfolding select
  sqlite_store-answers operations =
      answers-Implements (accepts is_datetime) sqlite_store-Implements operations [] no_events
        (λ id. refl) (no_events-IsChecked (accepts is_datetime))

-- ===== src/Storage/Postgres/Refinement.antt =====
-- The PostgreSQL store against the contract of ports/event-store.ts.
use pausemesh.Prelude.{
  ℕ, ◌+◌, ◌≤◌, ◌≡◌, ◌≢◌, refl, sym, ◌∙◌, ap, Bool, true, false, List, [], ◌∷◌, Result, ok, err,
  Result-cases, inl, inr, length, leb, ltb, ==_apart, arith, Bool-cases,
}
use pausemesh.Prelude.Text.{Text}
use pausemesh.Domain.Types.{ContinuationId, max_safe_integer}
use pausemesh.Domain.Events.{ContinuationEvent}
use pausemesh.Domain.Errors.{version_conflict}
use pausemesh.Ports.Failure.{Failure, domain, range_error, store_error, stream_too_large}
use pausemesh.Ports.EventStore.{Streams, append_events}
use pausemesh.Ports.EventStore.Streams.{append_events-Appended}
use pausemesh.Storage.Serialization.{
  SerializedEvent, accepts, serialize_append_batch, serialize_right, serialize_wrong,
}
use pausemesh.Storage.Contract.{appended_batch, append_events-refused}
use pausemesh.Storage.Postgres.{Database, actual_version, append, append_checked, append_texts}
use pausemesh.Storage.Postgres.Loading.{Holds}
use pausemesh.Storage.Postgres.Appending.{actual-head_of, texts-Appended, transaction_stale}

module _ (is_datetime : Text → Bool) (limit : ℕ) (id : ContinuationId) (version : ℕ)
    (events : List ContinuationEvent) (database : Database) (before : Streams) where
  within_limit :
      (n : ℕ)
      → limit ≤ max_safe_integer
      → n ≤ limit
      → (leb n max_safe_integer ≡ true) × (ltb limit n ≡ false)
  within_limit n l h = (ground arith, ground arith)

  -- An append that the contract accepts, and that keeps the stream within the limit, succeeds, and
  -- the tables then hold the streams of the contract.
  pub append-Holds :
      (after : Streams)
      → limit ≤ max_safe_integer
      → version + length events ≤ limit
      → Holds limit database before
      → append_events (accepts is_datetime) id version events before ≡ ok after
      → ((append is_datetime limit id version events database).0 ≡ ok tt)
        × Holds limit (append is_datetime limit id version events database).1 after
  unfolding append append_checked
  append-Holds after safe short h e =
      let (fits, low) = within_limit (version + length events) safe short in
      let (written, appended, holds) =
        texts-Appended is_datetime id database limit version events before after h
          (append_events-Appended (accepts is_datetime) id version events before after e) short in
      rw
        (
          fits,
          low,
          serialize_right is_datetime id version events
              (appended_batch (accepts is_datetime) id version events before after e),
          appended,
        )
        (refl, holds)

  texts_stale :
      (texts : List SerializedEvent)
      → actual_version (database.heads id) ≢ version
      → (e : Failure) × (append_texts is_datetime id version database texts ≡ err e)
  unfolding append_texts
  texts_stale [] stale = (
    domain (version_conflict id version (actual_version (database.heads id))),
    rw (==_apart (actual_version (database.heads id)) version stale) refl,
  )
  texts_stale (text ∷ texts) stale =
      transaction_stale is_datetime id database version (text ∷ texts) (database.heads id) refl
        stale

  thrown :
      (e : Failure)
      → append_checked is_datetime limit id version events database ≡ err e
      → append is_datetime limit id version events database ≡ (err e, database)
  unfolding append
  thrown e h = rw h refl

  batch_thrown :
      (r : Result Failure (List SerializedEvent))
      → serialize_append_batch is_datetime id version events ≡ r
      → ((texts : List SerializedEvent)
          → r ≡ ok texts
          → actual_version (database.heads id) ≢ version)
      → (e : Failure) × (append_checked is_datetime limit id version events database ≡ err e)
  unfolding append_checked
  batch_thrown r e stale = elim (Bool-cases (leb (version + length events) max_safe_integer)) [
    | inr unsafe ↦ (range_error, rw unsafe refl)
    | inl fits ↦ elim (Bool-cases (ltb limit (version + length events))) [
      | inl long ↦ (store_error stream_too_large, rw (fits, long) refl)
      | inr short ↦ elim (Result-cases r) [
        | inr (x, wrong) ↦ (x, rw (fits, short, e, wrong) refl)
        | inl (texts, right) ↦
            let (x, h) = texts_stale texts (stale texts right) in
            (x, rw (fits, short, e, right, h) refl)
      ]
    ]
  ]

  -- An append that the contract refuses throws, and leaves the tables as they were.
  pub append-refused :
      (e : Failure)
      → Holds limit database before
      → append_events (accepts is_datetime) id version events before ≡ err e
      → (x : Failure) × (append is_datetime limit id version events database ≡ (err x, database))
  append-refused e h r =
      let (x, fails) =
        batch_thrown (serialize_append_batch is_datetime id version events) refl (λ texts s same.
          elim (append_events-refused (accepts is_datetime) id version events before e r) [
            | inl (stale, _) ↦
                stale (sym (actual-head_of (before id)) ∙ (sym (ap actual_version (h id).0) ∙ same))
            | inr (_, wrong) ↦ cc (s, serialize_wrong is_datetime id version events e wrong)
          ]) in
      (x, thrown x fails)

-- ===== src/Storage/Postgres/Appending.antt =====
-- What `append` of postgres-event-store.ts does to tables that hold the streams of the contract.
use mathlib.Core.List.{append-nil}
use pausemesh.Prelude.{
  ℕ, zero, suc, ◌+◌, ◌≤◌, ◌≡◌, ◌≢◌, refl, sym, ◌∙◌, ap, Bool, false, Option, none, some, List, [],
  ◌∷◌, ◌++◌, map, ok, err, inl, inr, ◌⊎◌, length, length-append, length-map, ==_iff, ==_apart,
  arith, Bool-cases,
}
use pausemesh.Prelude.Text.{Text, text_eq, text_eq_iff, text_eq_refl, apart}
use pausemesh.Domain.Types.{ContinuationId}
use pausemesh.Domain.Events.{ContinuationEvent}
use pausemesh.Domain.Errors.{version_conflict}
use pausemesh.Ports.Failure.{Failure, domain}
use pausemesh.Ports.EventStore.{Streams}
use pausemesh.Ports.EventStore.Streams.{Appended}
use pausemesh.Storage.Serialization.{SerializedEvent, stored}
use pausemesh.Storage.Sqlite.{Row, insert_batch}
use pausemesh.Storage.Sqlite.Table.{
  numbered, numbered-append, select-numbered, select_other, free_versions, insert_batch-stored,
}
use pausemesh.Storage.Postgres.{Database, actual_version, append_texts, set_head, transaction}
use pausemesh.Storage.Postgres.Loading.{head_of, Holds}

head_of-none : (es : List ContinuationEvent) → length es ≡ 0 → head_of es ≡ none
head_of-none [] e = refl
head_of-none (x ∷ es) e = absurd (omega (arith, e))

head_of-some : (es : List ContinuationEvent) (v : ℕ) → length es ≡ suc v → head_of es ≡ some (suc v)
head_of-some [] v e = absurd (omega (arith, e))
head_of-some (x ∷ es) v e = ap some e

pub actual-head_of : (es : List ContinuationEvent) → actual_version (head_of es) ≡ length es
actual-head_of [] = refl
actual-head_of (x ∷ es) = refl

set_head_same :
    (id : ContinuationId) (v : ℕ) (heads : ContinuationId → Option ℕ)
    → set_head id v heads id ≡ some v
unfolding set_head
set_head_same id v heads = rw (text_eq_refl id) refl

set_head_other :
    (id other : ContinuationId) (v : ℕ) (heads : ContinuationId → Option ℕ)
    → text_eq other id ≡ false
    → set_head id v heads other ≡ heads other
unfolding set_head
set_head_other id other v heads e = rw e refl

List-cases {ℓ} : {A : Type ℓ} (xs : List A) → (xs ≡ []) ⊎ (xs ≢ [])
List-cases [] = inl refl
List-cases (x ∷ xs) = inr (λ e. cc)

map_nil : (es : List ContinuationEvent) → map stored es ≡ [] → es ≡ []
map_nil [] e = refl
map_nil (x ∷ es) e = absurd (cc e)

module _ (is_datetime : Text → Bool) (id : ContinuationId) (database : Database) where
  append_texts-transaction :
      (version : ℕ) (texts : List SerializedEvent)
      → texts ≢ []
      → append_texts is_datetime id version database texts
        ≡ transaction is_datetime id version texts database
  unfolding append_texts
  append_texts-transaction version [] ne = absurd (ne refl)
  append_texts-transaction version (text ∷ texts) ne = refl

  -- The other streams' heads of a table are those of the database.
  abbrev KeepsOthers : (ContinuationId → Option ℕ) → Type 0
  KeepsOthers heads =
      (other : ContinuationId) → text_eq other id ≡ false → heads other ≡ database.heads other

  abbrev written : (ContinuationId → Option ℕ) → ℕ → List Row → Database
  written heads next rows = record { heads = set_head id next heads; rows = rows }

  -- The transaction at the version of the head writes the head and the batch.
  transaction_fenced :
      (version : ℕ) (texts : List SerializedEvent) (rows : List Row)
      → ((version ≡ 0) → database.heads id ≡ none)
      → ((v : ℕ) → version ≡ suc v → database.heads id ≡ some version)
      → insert_batch id version texts database.rows ≡ ok rows
      → (heads : ContinuationId → Option ℕ) × KeepsOthers heads
        × (transaction is_datetime id version texts database
            ≡ ok (written heads (version + length texts) rows))
  unfolding transaction
  transaction_fenced zero texts rows none_yet head inserted = (
    set_head id 0 database.heads,
    (λ other e. set_head_other id other 0 database.heads e),
    rw (none_yet refl, set_head_same id 0 database.heads, inserted) refl,
  )
  transaction_fenced (suc v) texts rows none_yet head inserted = (
    database.heads,
    (λ other e. refl),
    rw (head v refl, (==_iff (suc v) (suc v)).1 refl, inserted) refl,
  )

  -- At any other version it throws.
  pub transaction_stale :
      (version : ℕ) (texts : List SerializedEvent) (head : Option ℕ)
      → database.heads id ≡ head
      → actual_version head ≢ version
      → (e : Failure) × (transaction is_datetime id version texts database ≡ err e)
  unfolding transaction
  transaction_stale zero texts none e stale = absurd (stale refl)
  transaction_stale zero texts (some n) e stale =
      (domain (version_conflict id 0 n), rw (e, e, ==_apart n 0 stale) refl)
  transaction_stale (suc v) texts none e stale = (domain (version_conflict id (suc v) 0), rw e refl)
  transaction_stale (suc v) texts (some n) e stale =
      (domain (version_conflict id (suc v) n), rw (e, ==_apart n (suc v) stale) refl)

  module _ (limit version : ℕ) (events : List ContinuationEvent) (before after : Streams) where
    written-Holds :
        (heads : ContinuationId → Option ℕ) (rows : List Row)
        → KeepsOthers heads
        → Holds limit database before
        → Appended id version events before after
        → version + length events ≤ limit
        → head_of (after id) ≡ some (version + length events)
        → Holds limit
            (written heads (version + length events) (database.rows ++ numbered id version events))
            after
    written-Holds heads rows keeps h a l same_head other = elim (Bool-cases (text_eq other id)) [
      | inl same ↦ rw ((text_eq_iff other id).0 same) (
        set_head_same id (version + length events) heads ∙ sym same_head,
        rw (a.extended, numbered-append id 0 version (before id) events (omega (arith, a.fenced)))
            (select-numbered id database.rows version events
              ∙ ap (λ l. l ++ numbered id version events) (h id).1),
        omega (arith, ap length a.extended, length-append (before id) events, a.fenced, l),
      )
      | inr different ↦ rw (a.others other different) (
        set_head_other id other (version + length events) heads different
            ∙ keeps other different
            ∙ (h other).0,
        select_other id other database.rows version events (apart id other different) ∙ (h other).1,
        (h other).2,
      )
    ]

    Appended-head :
        Appended id version events before after
        → events ≢ []
        → head_of (after id) ≡ some (version + length events)
    Appended-head a some_event =
        rw (a.extended, ← a.fenced) (head_of-append (before id) events some_event)
      where
        head_of-append :
            (xs ys : List ContinuationEvent)
            → ys ≢ []
            → head_of (xs ++ ys) ≡ some (length xs + length ys)
        head_of-append [] [] ne = absurd (ne refl)
        head_of-append [] (y ∷ ys) ne = ap some (omega arith)
        head_of-append (x ∷ xs) ys ne = ap some (omega (arith, length-append xs ys))

    nothing-Appended :
        Holds limit database before
        → Appended id version events before after
        → events ≡ []
        → Holds limit database after
    nothing-Appended h a nothing other = elim (Bool-cases (text_eq other id)) [
      | inl same ↦
          rw ((text_eq_iff other id).0 same, a.extended, nothing, append-nil (before id)) (h id)
      | inr different ↦ rw (a.others other different) (h other)
    ]

    pub texts-Appended :
        Holds limit database before
        → Appended id version events before after
        → version + length events ≤ limit
        → (after_database : Database) × (append_texts is_datetime id version database
              (map stored events)
            ≡ ok after_database)
          × Holds limit after_database after
    unfolding append_texts
    texts-Appended h a l = elim (List-cases events) [
      | inl empty ↦ (
        database,
        rw
            (
              empty,
              (h id).0,
              actual-head_of (before id),
              (==_iff (length (before id)) version).1 a.fenced,
            )
            refl,
        nothing-Appended h a empty,
      )
      | inr some_event ↦
          let (heads, keeps, done) =
            transaction_fenced version (map stored events)
              (database.rows ++ numbered id version events)
              (λ e. (h id).0 ∙ head_of-none (before id) (a.fenced ∙ e))
              (λ v e. (h id).0 ∙ (head_of-some (before id) v (a.fenced ∙ e) ∙ ap some (sym e)))
              (insert_batch-stored id version events database.rows (λ v less.
                free_versions id database.rows (before id) v (h id).1
                  (omega (arith, a.fenced, less)))) in
          let count : version + length (map stored events) ≡ version + length events =
            omega (arith, length-map stored events) in
          (
            written heads (version + length events) (database.rows ++ numbered id version events),
            append_texts-transaction version (map stored events)
                  (λ e. some_event (map_nil events e))
                ∙ (done
                    ∙ ap (λ n. ok (written heads n (database.rows ++ numbered id version events)))
                        count),
            written-Holds heads (database.rows ++ numbered id version events) keeps h a l
                (Appended-head a some_event),
          )
    ]

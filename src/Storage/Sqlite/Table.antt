-- ===== src/Storage/Sqlite/Table.antt =====
-- What the queries of sqlite-event-store.ts give on a table that holds the streams of the contract.
use mathlib.Core.List.{append-nil, append_assoc}
use pausemesh.Prelude.{
  ℕ, suc, ◌+◌, ◌<◌, ◌≡◌, refl, ◌∙◌, false, List, [], ◌∷◌, ◌++◌, map, ok, length, ==_apart, arith,
  Bool-cases, inl, inr,
}
use pausemesh.Prelude.Text.{text_eq, text_eq_refl}
use pausemesh.Domain.Types.{ContinuationId}
use pausemesh.Domain.Events.{ContinuationEvent}
use pausemesh.Storage.Serialization.{stored}
use pausemesh.Storage.Sqlite.{
  Row, select, order_by_version, max_version, is_taken, insert, insert_batch,
}

abbrev pub row_of : ContinuationId → ℕ → ContinuationEvent → Row
row_of id version event = record {
  continuation_id = id;
  version = version;
  event_json = stored event;
}

-- The rows of events whose first has the version after `version`.
abbrev pub numbered : ContinuationId → ℕ → List ContinuationEvent → List Row
numbered id version [] = []
numbered id version (event ∷ events) =
    row_of id (suc version) event ∷ numbered id (suc version) events

module _ (id : ContinuationId) where
  pub order-numbered :
      (version : ℕ) (events : List ContinuationEvent)
      → order_by_version (numbered id version events) ≡ numbered id version events
  unfolding order_by_version
  order-numbered version [] = refl
  order-numbered version (event ∷ []) = refl
  order-numbered version (event ∷ next ∷ events) =
      rw (order-numbered (suc version) (next ∷ events)) (ground arith)

  max-numbered :
      (version : ℕ) (event : ContinuationEvent) (events : List ContinuationEvent)
      → max_version (numbered id version (event ∷ events)) ≡ suc version + length events
  unfolding max_version
  max-numbered version event [] = ground arith
  max-numbered version event (next ∷ events) =
      ground (arith, max-numbered (suc version) next events)

  pub max_version-numbered :
      (events : List ContinuationEvent) → max_version (numbered id 0 events) ≡ length events
  unfolding max_version
  max_version-numbered [] = refl
  max_version-numbered (event ∷ events) = max-numbered 0 event events ∙ omega arith

  pub numbered-append :
      (version next : ℕ) (xs ys : List ContinuationEvent)
      → length xs + version ≡ next
      → numbered id version (xs ++ ys) ≡ numbered id version xs ++ numbered id next ys
  numbered-append version next [] ys e =
      let same : version ≡ next = omega (arith, e) in rw same refl
  numbered-append version next (x ∷ xs) ys e =
      rw (numbered-append (suc version) next xs ys (omega (arith, e))) refl

  pub select-numbered :
      (rows : List Row) (version : ℕ) (events : List ContinuationEvent)
      → select id (rows ++ numbered id version events)
        ≡ select id rows ++ numbered id version events
  unfolding select
  select-numbered [] version [] = refl
  select-numbered [] version (event ∷ events) =
      rw (text_eq_refl id, select-numbered [] (suc version) events) refl
  select-numbered (row ∷ rows) version events = elim (Bool-cases (text_eq row.continuation_id id)) [
    | inl same ↦ rw (same, select-numbered rows version events) refl
    | inr different ↦ rw (different, select-numbered rows version events) refl
  ]

  pub select_other :
      (other : ContinuationId) (rows : List Row) (version : ℕ) (events : List ContinuationEvent)
      → text_eq id other ≡ false
      → select other (rows ++ numbered id version events) ≡ select other rows
  unfolding select
  select_other other [] version [] e = refl
  select_other other [] version (event ∷ events) e =
      rw (e, select_other other [] (suc version) events e) refl
  select_other other (row ∷ rows) version events e =
      rw (select_other other rows version events e) refl

  is_taken-select :
      (version : ℕ) (rows : List Row)
      → is_taken id version rows ≡ is_taken id version (select id rows)
  unfolding is_taken select
  is_taken-select version [] = refl
  is_taken-select version (row ∷ rows) = elim (Bool-cases (text_eq row.continuation_id id)) [
    | inl same ↦ rw (same, is_taken-select version rows, same) refl
    | inr different ↦ rw (different, is_taken-select version rows) refl
  ]

  is_taken-numbered :
      (version first : ℕ) (events : List ContinuationEvent)
      → first + length events < version
      → is_taken id version (numbered id first events) ≡ false
  unfolding is_taken
  is_taken-numbered version first [] h = refl
  is_taken-numbered version first (event ∷ events) h =
      rw
        (
          text_eq_refl id,
          ==_apart (suc first) version (λ e. omega (arith, h, e)),
          is_taken-numbered version (suc first) events (omega (arith, h)),
        )
        refl

  pub free_versions :
      (rows : List Row) (events : List ContinuationEvent) (version : ℕ)
      → select id rows ≡ numbered id 0 events
      → length events < version
      → is_taken id version rows ≡ false
  free_versions rows events version s h =
      is_taken-select version rows ∙ rw s (is_taken-numbered version 0 events (omega (arith, h)))

  is_taken-last :
      (version used : ℕ) (event : ContinuationEvent) (rows : List Row)
      → used < version
      → is_taken id version rows ≡ false
      → is_taken id version (rows ++ row_of id used event ∷ []) ≡ false
  unfolding is_taken
  is_taken-last version used event [] h e =
      rw (text_eq_refl id, ==_apart used version (λ same. omega (arith, h, same))) refl
  is_taken-last version used event (row ∷ rows) h e =
      ground (arith, is_taken-last version used event rows h)

  insert-stored :
      (version : ℕ) (event : ContinuationEvent) (rows : List Row)
      → is_taken id (suc version) rows ≡ false
      → insert id (suc version) (stored event) rows
        ≡ ok (rows ++ row_of id (suc version) event ∷ [])
  unfolding insert
  insert-stored version event rows e = ground arith

  -- A batch whose versions are free is inserted whole, in order.
  pub insert_batch-stored :
      (version : ℕ) (events : List ContinuationEvent) (rows : List Row)
      → ((v : ℕ) → version < v → is_taken id v rows ≡ false)
      → insert_batch id version (map stored events) rows ≡ ok (rows ++ numbered id version events)
  unfolding insert_batch insert
  insert_batch-stored version [] rows free = rw (append-nil rows) refl
  insert_batch-stored version (event ∷ events) rows free =
      rw
        (
          insert-stored version event rows (free (suc version) (omega arith)),
          insert_batch-stored (suc version) events (rows ++ row_of id (suc version) event ∷ [])
              (λ v h. is_taken-last v (suc version) event rows h (free v (omega (arith, h)))),
          append_assoc,
        )
        refl

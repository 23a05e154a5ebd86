-- ===== src/Storage/Postgres/Loading.antt =====
-- What `load` of postgres-event-store.ts gives on tables that hold the streams of the contract.
use pausemesh.Prelude.{
  ℕ, zero, suc, ◌≤◌, ◌≡◌, refl, ap, Bool, true, false, Option, none, some, List, [], ◌∷◌, ok, err,
  length, ltb, ◌==◌, ==_iff, if◌then◌else◌, Bool-cases, inl, inr, arith,
}
use pausemesh.Prelude.Text.{Text}
use pausemesh.Domain.Types.{ContinuationId}
use pausemesh.Domain.Events.{ContinuationEvent}
use pausemesh.Ports.EventStore.{Streams, check_batch}
use pausemesh.Storage.Serialization.{accepts, deserialize_stored}
use pausemesh.Storage.Contract.{IsChecked, checked_head}
use pausemesh.Storage.Sqlite.{select}
use pausemesh.Storage.Sqlite.Table.{numbered, order-numbered}
use pausemesh.Ports.Failure.{store_error, stream_too_large}
use pausemesh.Storage.Postgres.{
  Database, Row, take, read_row, read_rows, read_joined, load_from, load,
}

-- The head that a stream has: none if it is empty, or its version.
abbrev pub head_of : List ContinuationEvent → Option ℕ
head_of [] = none
head_of (event ∷ events) = some (suc (length events))

-- The tables hold these streams, none of them above the limit.
abbrev pub Holds : ℕ → Database → Streams → Type 0
Holds limit database streams =
    (id : ContinuationId)
    → (database.heads id ≡ head_of (streams id))
      × (select id database.rows ≡ numbered id 0 (streams id))
      × (length (streams id) ≤ limit)

-- The tables hold these streams.
abbrev pub IsListed : Database → Streams → Type 0
IsListed database streams =
    (id : ContinuationId)
    → (database.heads id ≡ head_of (streams id))
      × (select id database.rows ≡ numbered id 0 (streams id))

take_all {ℓ} : {A : Type ℓ} (n : ℕ) (xs : List A) → length xs ≤ n → take n xs ≡ xs
unfolding take
take_all zero [] h = refl
take_all zero (x ∷ xs) h = absurd (omega (arith, h))
take_all (suc n) [] h = refl
take_all (suc n) (x ∷ xs) h = rw (take_all n xs (omega (arith, h))) refl

length-numbered :
    (id : ContinuationId) (version : ℕ) (events : List ContinuationEvent)
    → length (numbered id version events) ≡ length events
length-numbered id version [] = refl
length-numbered id version (event ∷ events) = ap suc (length-numbered id (suc version) events)

module _ (is_datetime : Text → Bool) where
  read_rows-numbered :
      (id : ContinuationId) (version : ℕ) (events : List ContinuationEvent)
      → check_batch (accepts is_datetime) id version events ≡ ok tt
      → read_rows is_datetime id version (numbered id version events) ≡ ok events
  unfolding read_rows read_row
  read_rows-numbered id version [] c = refl
  read_rows-numbered id version (event ∷ events) c =
      let (identity, number, valid, rest) =
        checked_head (accepts is_datetime) id version event events c in
      rw
        (
          (==_iff (suc version) (suc version)).1 refl,
          deserialize_stored is_datetime event valid,
          identity,
          number,
          read_rows-numbered id (suc version) events rest,
        )
        refl

  fits :
      (limit n count : ℕ)
      → suc n ≤ limit
      → count ≡ suc n
      → (ltb limit (suc n) ≡ false)
        × (ltb limit count ≡ false)
        × ((suc n == 0) ≡ false)
        × ((count == suc n) ≡ true)
  fits limit n count l e = (ground arith, ground arith, ground arith, ground arith)

  load_listed :
      (limit : ℕ) (id : ContinuationId) (events : List ContinuationEvent)
      → check_batch (accepts is_datetime) id 0 events ≡ ok tt
      → length events ≤ limit
      → load_from is_datetime limit id (head_of events) (numbered id 0 events) ≡ ok events
  unfolding load_from read_joined
  load_listed limit id [] c l = refl
  load_listed limit id (event ∷ events) c l =
      let (low, low', positive, same) =
        fits limit (length events) (suc (length (numbered id 1 events))) l
          (ap suc (length-numbered id 1 events)) in
      rw (low, low', positive, same) (read_rows-numbered id 0 (event ∷ events) c)

  load_long :
      (limit : ℕ) (id : ContinuationId) (events : List ContinuationEvent) (rows : List Row)
      → ltb limit (length events) ≡ true
      → load_from is_datetime limit id (head_of events) rows ≡ err (store_error stream_too_large)
  unfolding load_from
  load_long limit id [] rows h =
      absurd (let none_below : ltb limit 0 ≡ false = ground arith in cc (h, none_below))
  load_long limit id (event ∷ events) rows h = rw h refl

  -- Tables that hold checked streams, of whatever lengths, are read back as these streams, but for a
  -- stream above the limit, whose load throws that it is too large.
  pub load-IsListed :
      (limit : ℕ) (id : ContinuationId) (database : Database) (streams : Streams)
      → IsListed database streams
      → IsChecked (accepts is_datetime) streams
      → load is_datetime limit id database ≡ (
          if ltb limit (length (streams id))
          then err (store_error stream_too_large)
          else ok (streams id))
  unfolding load
  load-IsListed limit id database streams h c =
      let (head, listed) = h id in
      elim (Bool-cases (ltb limit (length (streams id)))) [
        | inl long ↦ rw (head, long) (load_long limit id (streams id) _ long)
        | inr short ↦
            let fitting : length (streams id) ≤ limit = ground arith in
            rw
              (
                head,
                listed,
                order-numbered id 0 (streams id),
                take_all (suc limit) (numbered id 0 (streams id))
                    (omega (arith, length-numbered id 0 (streams id), fitting)),
                short,
              )
              (load_listed limit id (streams id) (c id) fitting)
      ]

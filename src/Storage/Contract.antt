-- ===== src/Storage/Contract.antt =====
-- What a store owes to its clients: the replies that the contract of ports/event-store.ts gives.
use pausemesh.Prelude.{
  ℕ, suc, ◌+◌, ◌≡◌, refl, Bool, true, List, [], ◌∷◌, ◌++◌, Result, ok, err, Result-cases, length,
  ◌==◌, ==_iff, ◌⊎◌, ◌≢◌, arith, Bool-cases, inl, inr,
}
use pausemesh.Prelude.Text.{text_eq, text_eq_iff}
use pausemesh.Domain.Types.{ContinuationId}
use pausemesh.Domain.Events.{ContinuationEvent}
use pausemesh.Domain.Errors.{version_conflict}
use pausemesh.Ports.Failure.{Failure, domain}
use pausemesh.Ports.EventStore.{Streams, check_batch, append_events}
use pausemesh.Ports.EventStore.Streams.{append_events-Appended}

pub data Operation : Type 0 where
  loads : ContinuationId → Operation
  appends : ContinuationId → ℕ → List ContinuationEvent → Operation

pub data Answer : Type 0 where
  loaded : Result Failure (List ContinuationEvent) → Answer
  appended : Result Failure (Unit {0}) → Answer

-- A store: what its methods reply, and its state after an append.
pub record Store (State : Type 0) : Type 0 where
  pub load : ContinuationId → State → Result Failure (List ContinuationEvent)
  pub append :
      ContinuationId → ℕ → List ContinuationEvent → State → Result Failure (Unit {0}) × State

abbrev pub answers : {S : Type 0} → Store S → List Operation → S → List Answer
answers store [] s = []
answers store (loads id ∷ rest) s = loaded (store.load id s) ∷ answers store rest s
answers store (appends id version events ∷ rest) s =
    appended (store.append id version events s).0
    ∷ answers store rest (store.append id version events s).1

abbrev pub no_events : Streams
no_events id = []

module _ (accepts : ContinuationEvent → Bool) where
  abbrev pub replied : Streams → Result Failure Streams → Result Failure (Unit {0}) × Streams
  replied before (ok after) = (ok tt, after)
  replied before (err e) = (err e, before)

  -- The contract as a store.
  abbrev pub contract : Store Streams
  contract = record {
    load = λ id streams. ok (streams id);
    append = λ id version events streams.
        replied streams (append_events accepts id version events streams);
  }

  -- Every stream has passed the checks of a batch from version zero on.
  abbrev pub IsChecked : Streams → Type 0
  IsChecked streams = (id : ContinuationId) → check_batch accepts id 0 (streams id) ≡ ok tt

  pub no_events-IsChecked : IsChecked no_events
  unfolding check_batch
  no_events-IsChecked id = refl

  -- A store whose states represent the streams of the contract.
  pub record Implements {S : Type 0} (store : Store S) (Represents : S → Streams → Type 0)
      : Type 0 where
    pub loads_right :
        (id : ContinuationId) (s : S) (streams : Streams)
        → Represents s streams
        → IsChecked streams
        → store.load id s ≡ ok (streams id)
    pub appends_right :
        (id : ContinuationId) (version : ℕ) (events : List ContinuationEvent) (s : S)
        (before after : Streams)
        → Represents s before
        → IsChecked before
        → append_events accepts id version events before ≡ ok after
        → ((store.append id version events s).0 ≡ ok tt)
          × Represents (store.append id version events s).1 after
    pub refuses_right :
        (id : ContinuationId) (version : ℕ) (events : List ContinuationEvent) (s : S)
        (before : Streams) (e : Failure)
        → Represents s before
        → IsChecked before
        → append_events accepts id version events before ≡ err e
        → ((store.append id version events s).0 ≡ err e)
          × Represents (store.append id version events s).1 before

  pub checked_head :
      (id : ContinuationId) (version : ℕ) (x : ContinuationEvent) (xs : List ContinuationEvent)
      → check_batch accepts id version (x ∷ xs) ≡ ok tt
      → (text_eq x.continuation_id id ≡ true)
        × ((x.version == suc version) ≡ true)
        × (accepts x ≡ true)
        × (check_batch accepts id (suc version) xs ≡ ok tt)
  unfolding check_batch
  checked_head id version x xs h = (ground arith, ground arith, ground arith, ground arith)

  -- A batch that follows on a checked stream makes a checked stream.
  check_batch-append :
      (id : ContinuationId) (version next : ℕ) (xs ys : List ContinuationEvent)
      → check_batch accepts id version xs ≡ ok tt
      → length xs + version ≡ next
      → check_batch accepts id next ys ≡ ok tt
      → check_batch accepts id version (xs ++ ys) ≡ ok tt
  unfolding check_batch
  check_batch-append id version next [] ys h e g =
      let same : version ≡ next = omega (arith, e) in rw (same, g) refl
  check_batch-append id version next (x ∷ xs) ys h e g =
      let (identity, number, valid, rest) = checked_head id version x xs h in
      rw (identity, number, valid)
        (check_batch-append id (suc version) next xs ys rest (omega (arith, e)) g)

  pub appended_batch :
      (id : ContinuationId) (version : ℕ) (events : List ContinuationEvent) (before after : Streams)
      → append_events accepts id version events before ≡ ok after
      → check_batch accepts id version events ≡ ok tt
  unfolding append_events
  appended_batch id version events before after e = ground arith

  -- The two reasons for which the contract refuses a batch.
  pub append_events-refused :
      (id : ContinuationId) (version : ℕ) (events : List ContinuationEvent) (streams : Streams)
      (e : Failure)
      → append_events accepts id version events streams ≡ err e
      → ((length (streams id) ≢ version)
          × (e ≡ domain (version_conflict id version (length (streams id)))))
        ⊎ ((length (streams id) ≡ version) × (check_batch accepts id version events ≡ err e))
  unfolding append_events
  append_events-refused id version events streams e h =
      elim (Bool-cases (length (streams id) == version)) [
        | inl same ↦ inr ((==_iff _ _).0 same, ground arith)
        | inr other ↦ inl (λ same. ground arith, ground arith)
      ]

  pub append_events-IsChecked :
      (id : ContinuationId) (version : ℕ) (events : List ContinuationEvent) (before after : Streams)
      → IsChecked before
      → append_events accepts id version events before ≡ ok after
      → IsChecked after
  append_events-IsChecked id version events before after c e other =
      let a = append_events-Appended accepts id version events before after e in
      elim (Bool-cases (text_eq other id)) [
        | inl same ↦
            rw ((text_eq_iff other id).0 same, a.extended)
              (check_batch-append id 0 version (before id) events (c id) (omega (arith, a.fenced))
                (appended_batch id version events before after e))
        | inr different ↦ rw (a.others other different) (c other)
      ]

  module _ {S : Type 0} {store : Store S} {Represents : S → Streams → Type 0}
      (implements : Implements store Represents) where
    -- A store that implements the contract gives the replies of the contract to every sequence of
    -- operations.
    pub answers-Implements :
        (operations : List Operation) (s : S) (streams : Streams)
        → Represents s streams
        → IsChecked streams
        → answers store operations s ≡ answers contract operations streams
    answers-Implements [] s streams r c = refl
    answers-Implements (loads id ∷ rest) s streams r c =
        rw (implements.loads_right id s streams r c, answers-Implements rest s streams r c) refl
    answers-Implements (appends id version events ∷ rest) s streams r c =
        elim (Result-cases (append_events accepts id version events streams)) [
          | inl (after, e) ↦
              let (reply, r') = implements.appends_right id version events s streams after r c e in
              rw
                (
                  e,
                  reply,
                  answers-Implements rest (store.append id version events s).1 after r'
                      (append_events-IsChecked id version events streams after c e),
                )
                refl
          | inr (error, e) ↦
              let (reply, r') = implements.refuses_right id version events s streams error r c e in
              rw
                (
                  e,
                  reply,
                  answers-Implements rest (store.append id version events s).1 streams r' c,
                )
                refl
        ]

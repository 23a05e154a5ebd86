-- ===== src/Ports/EventStore.antt =====
-- ports/event-store.ts: the contract of a store of event streams, as functions on the streams, and
-- the checks of a batch that every store of the program makes before it appends.
pub mod Streams
use pausemesh.Prelude.{
  ℕ, suc, ◌+◌, Bool, List, [], ◌∷◌, ◌++◌, Result, ok, err, ◌>>=◌, ◌>>◌, length, ◌==◌, if◌then◌else◌,
}
use pausemesh.Prelude.Text.{text_eq}
use pausemesh.Domain.Types.{ContinuationId}
use pausemesh.Domain.Events.{ContinuationEvent}
use pausemesh.Domain.Errors.{version_conflict, id_mismatch}
use pausemesh.Ports.Failure.{Failure, domain, type_error}

-- Version zero is the stream that does not exist.
abbrev pub Streams : Type 0
Streams = ContinuationId → List ContinuationEvent

unfoldable pub extend : ContinuationId → List ContinuationEvent → Streams → Streams
extend id events streams other = if text_eq other id then streams other ++ events else streams other

-- `accepts` is the schema of stored events.
module _ (accepts : ContinuationEvent → Bool) where
  -- The checks of `serializeAppendBatch`, event by event.
  unfoldable pub check_batch :
      ContinuationId → ℕ → List ContinuationEvent → Result Failure (Unit {0})
  check_batch id version [] = ok tt
  check_batch id version (event ∷ events) =
      let rest = check_batch id (suc version) events in
      if text_eq event.continuation_id id
      then if event.version == suc version
        then if accepts event then rest else err type_error
        else err (domain (version_conflict id (suc version) event.version))
      else err (domain (id_mismatch id event.continuation_id))

  -- Compares the version, checks the batch, and appends all events or none.
  unfoldable pub append_events :
      ContinuationId → ℕ → List ContinuationEvent → Streams → Result Failure Streams
  unfolding extend
  append_events id expected events streams =
      if length (streams id) == expected
      then (do check_batch id expected events; ok (extend id events streams))
      else err (domain (version_conflict id expected (length (streams id))))

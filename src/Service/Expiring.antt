-- ===== src/Service/Expiring.antt =====
-- What the lazy expiry of the service, and its other transitions, ensure.
use pausemesh.Prelude.{◌+◌, ◌≡◌, refl, Bool, none, some, ok, err, Bool-cases, inl, inr, leb}
use pausemesh.Prelude.Text.{Text}
use pausemesh.Domain.Types.{ContinuationId, ContinuationEnvelope, ContinuationStatus, Lifecycle}
use pausemesh.Domain.Events.{ContinuationEvent, EventBody}
use pausemesh.Domain.Reducer.{terminal, reduce_continuation}
use pausemesh.Domain.Reducer.Steps.{expires, Transition, reduce_of_Transition}
use pausemesh.Ports.Failure.{range_error, Failure, is_version_conflict}
use pausemesh.Ports.Platform.{Date, Platform, max_time, date_lt}
use pausemesh.Ports.EventStore.{Streams}
use pausemesh.Service.Program.{Program, ◌>>=◌, lift, iso_string}
use pausemesh.Service.Expiry.{
  transitioned, closing_event, append_expiry, reload_on_conflict, expire_pending, expire_by,
  expire_if_due, expire_if_due_now,
}
use pausemesh.Service.Ensures.{Later, Post, Ensures, Ensures-attempt}
use pausemesh.Service.Promises.{Read, closing_Transition, append-Transition, Read-own, Read-renamed}
use pausemesh.Service.Reads.{Reads, load_required-Ensures}

module _ (accepts : ContinuationEvent → Bool) (platform : Platform) where
  module _ {A : Type 0} (Q : Post A) where
    -- A date is printed, or is out of range.
    pub iso_string-Ensures :
        (d : Date) (f : Text → Program A) (streams : Streams)
        → ((at : Text) → Ensures accepts Q (f at) streams)
        → Q (err range_error) streams
        → Ensures accepts Q (iso_string platform d >>= f) streams
    unfolding ◌>>=◌
    iso_string-Ensures none f streams h e = e
    iso_string-Ensures (some t) f streams h e = elim (Bool-cases (leb t max_time)) [
      | inl fits ↦ rw fits (h (platform.iso_text t))
      | inr late ↦ rw late e
    ]

  pub transitioned-Ensures :
      (Q : Post ContinuationEnvelope) (s t : ContinuationEnvelope) (event : ContinuationEvent)
      (reached : ContinuationStatus) (streams : Streams)
      → reduce_continuation (some s) event ≡ ok t
      → Q (ok t) streams
      → Ensures accepts Q (transitioned s event reached) streams
  unfolding transitioned ◌>>=◌
  transitioned-Ensures Q s t event reached streams e q = rw e q

  module _ (id : ContinuationId) (K : Streams → Type 0)
      (keep : (s t : Streams) → K s → Later s t → K t) where
    -- As `Reads`, where a failure keeps what is known as well.
    abbrev ReadsOrKeeps : Post ContinuationEnvelope
    ReadsOrKeeps (ok s) streams = Read id s streams × K streams
    ReadsOrKeeps (err e) streams = K streams

    append_expiry-Ensures :
        (s : ContinuationEnvelope) (h at : Text) (streams : Streams)
        → s.lifecycle ≡ Lifecycle.pending h
        → Read id s streams
        → K streams
        → Ensures accepts ReadsOrKeeps
            (append_expiry s (closing_event s.continuation_id s at EventBody.expired))
            streams
    unfolding append_expiry ◌>>=◌
    append_expiry-Ensures s h at streams p r k =
        let event = closing_event s.continuation_id s at EventBody.expired in
        let t = terminal s (s.version + 1) (Lifecycle.expired at) in
        let step : Transition s event t =
          closing_Transition s.continuation_id s h at p refl expires in
        append-Transition accepts ReadsOrKeeps s.continuation_id s t event
          (λ reply. lift reply >>= λ _. transitioned s event ContinuationStatus.expired) streams
          (Read-own id s streams r) step
          (λ u l now_at.
            transitioned-Ensures ReadsOrKeeps s t event ContinuationStatus.expired u
              (reduce_of_Transition s event t step)
              (Read-renamed id s.continuation_id t u r.2 now_at, keep streams u k l))
          (λ e u l. keep streams u k l)

    reload-Ensures :
        (error : Failure) (streams : Streams)
        → K streams
        → Ensures accepts (Reads id K) (reload_on_conflict id error) streams
    unfolding reload_on_conflict
    reload-Ensures error streams k = elim (Bool-cases (is_version_conflict error)) [
      | inl conflict ↦ rw conflict (load_required-Ensures accepts id K keep streams k)
      | inr other ↦ rw other tt
    ]

    expire_pending-Ensures :
        (d : Date) (s : ContinuationEnvelope) (h : Text) (streams : Streams)
        → s.lifecycle ≡ Lifecycle.pending h
        → Read id s streams
        → K streams
        → Ensures accepts (Reads id K) (expire_pending platform d s) streams
    unfolding expire_pending
    expire_pending-Ensures d s h streams p r k =
        iso_string-Ensures (Reads id K) d _ streams
          (λ at.
            Ensures-attempt accepts ReadsOrKeeps (Reads id K) _ _ streams
              (append_expiry-Ensures s h at streams p r k) (λ t u q. q)
              (λ e u q. rw r.2 (reload-Ensures e u q)))
          tt

    expire_by-Ensures :
        (d : Date) (s : ContinuationEnvelope) (l : Lifecycle) (streams : Streams)
        → s.lifecycle ≡ l
        → Read id s streams
        → K streams
        → Ensures accepts (Reads id K) (expire_by platform d s l) streams
    unfolding expire_by
    expire_by-Ensures d s (Lifecycle.pending h) streams p r k =
        elim (Bool-cases (date_lt d (platform.parse_date s.expires_at))) [
          | inl early ↦ rw early (r, k)
          | inr due ↦ rw due (expire_pending-Ensures d s h streams p r k)
        ]
    expire_by-Ensures d s _ streams p r k = (r, k)

    -- The expiry check answers with a state of the stream, and keeps what is known of the store.
    pub expire_if_due-Ensures :
        (d : Date) (s : ContinuationEnvelope) (streams : Streams)
        → Read id s streams
        → K streams
        → Ensures accepts (Reads id K) (expire_if_due platform d s) streams
    unfolding expire_if_due
    expire_if_due-Ensures d s streams r k = expire_by-Ensures d s s.lifecycle streams refl r k

    pub expire_if_due_now-Ensures :
        (s : ContinuationEnvelope) (streams : Streams)
        → Read id s streams
        → K streams
        → Ensures accepts (Reads id K) (expire_if_due_now platform s) streams
    unfolding expire_if_due_now ◌>>=◌
    expire_if_due_now-Ensures s streams r k = λ d. expire_if_due-Ensures d s streams r k

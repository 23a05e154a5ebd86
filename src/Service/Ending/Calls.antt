-- ===== src/Service/Ending/Calls.antt =====
-- Every call of the service ends within a fixed number of its steps.
use pausemesh.Prelude.{ℕ, ◌+◌, ◌≤◌, Option, none, some, List, [], ◌∷◌, Result, ok, err, arith}
use pausemesh.Prelude.Text.{Text}
use pausemesh.Domain.Types.{ContinuationId, ContinuationEnvelope, ContinuationStatus, Lifecycle}
use pausemesh.Domain.Events.{ContinuationEvent}
use pausemesh.Domain.Reducer.{reduce_continuation}
use pausemesh.Ports.Failure.{Failure, is_version_conflict}
use pausemesh.Ports.Platform.{Date, Platform, date_le, date_plus}
use pausemesh.Service.Program.{Program, done, ◌>>=◌, lift, lift_domain, iso_string}
use pausemesh.Service.Inputs.{CreateContinuationInput, CancelContinuationInput, fence}
use pausemesh.Service.Lookup.{or_default, or_generated, load_required}
use pausemesh.Service.Outcomes.{resolve_completed_cancellation}
use pausemesh.Service.Expiry.{expire_if_due}
use pausemesh.Service.Methods.{
  cancelled_again, cancel_conflict, after_cancel_append, cancel_pending, cancel_fenced,
  cancel_current, cancel_loaded, cancel, inspect, created_pending, append_creation, create_until,
  create, history, some_history,
}
use pausemesh.Service.Calls.{
  Call, creates, resumes_with, cancels_with, inspects, reads_history, issued, envelope, events,
  serve,
}
use pausemesh.Service.Bounded.{Within, Within-more, Within-bind}
use pausemesh.Service.Ending.{
  lift-Within, lift_domain-Within, if-Within, iso_string-Within, load_required-Within,
  transitioned-Within, expire_if_due-Within, expire_if_due_now-Within, resume-Within,
}

module _ (platform : Platform) where
  resolved_cancellation-Within :
      (s : ContinuationEnvelope) (reason : Option Text) (input : CancelContinuationInput)
      → Within (lift_domain (resolve_completed_cancellation s reason input)) 0
  resolved_cancellation-Within s reason input =
      lift_domain-Within (resolve_completed_cancellation s reason input)

  cancel_conflict-Within :
      (input : CancelContinuationInput) (e : Failure) → Within (cancel_conflict input e) 1
  unfolding cancel_conflict cancelled_again
  cancel_conflict-Within input e =
      Within-bind _ 0 (λ s. again s s.lifecycle) _ 1 1 (omega arith)
        (load_required-Within input.continuation_id)
    where
      again : (s : ContinuationEnvelope) (l : Lifecycle) → Within (cancelled_again input e s l) 0
      again s (Lifecycle.pending hash) = tt
      again s (Lifecycle.resumed at key payload) = tt
      again s (Lifecycle.cancelled at reason) = resolved_cancellation-Within s reason input
      again s (Lifecycle.expired at) = tt

  after_cancel_append-Within :
      (input : CancelContinuationInput) (s : ContinuationEnvelope) (event : ContinuationEvent)
      (r : Result Failure (Unit {0}))
      → Within (after_cancel_append input s event r) 1
  unfolding after_cancel_append
  after_cancel_append-Within input s event (ok u) =
      transitioned-Within s event ContinuationStatus.cancelled
  after_cancel_append-Within input s event (err e) =
      if-Within (is_version_conflict e) _ _ 1 (cancel_conflict-Within input e) tt

  cancel_pending-Within :
      (input : CancelContinuationInput) (t : Date) (s : ContinuationEnvelope)
      → Within (cancel_pending platform input t s) 2
  unfolding cancel_pending
  cancel_pending-Within input t s =
      Within-bind _ 2 (λ at r. after_cancel_append-Within input s _ r) (iso_string platform t) 0 2
        (omega arith) (iso_string-Within platform t)

  cancel_current-Within :
      (input : CancelContinuationInput) (t : Date) (s : ContinuationEnvelope) (l : Lifecycle)
      → Within (cancel_current platform input t s l) 2
  unfolding cancel_current cancel_fenced
  cancel_current-Within input t s (Lifecycle.pending hash) =
      fenced (fence input.expected_version s.version)
    where
      fenced : (o : Option ℕ) → Within (cancel_fenced platform input t s o) 2
      fenced none = cancel_pending-Within input t s
      fenced (some expected) = tt
  cancel_current-Within input t s (Lifecycle.resumed at key payload) = tt
  cancel_current-Within input t s (Lifecycle.cancelled at reason) =
      Within-more (lift_domain (resolve_completed_cancellation s reason input)) 0 2 (omega arith)
        (resolved_cancellation-Within s reason input)
  cancel_current-Within input t s (Lifecycle.expired at) = tt

  after_expiry-Within :
      (input : CancelContinuationInput) (loaded : ContinuationEnvelope) (t : Date)
      → Within
          (expire_if_due platform t loaded >>= λ s. cancel_current platform input t s s.lifecycle)
          5
  after_expiry-Within input loaded t =
      Within-bind _ 2 (λ s. cancel_current-Within input t s s.lifecycle)
        (expire_if_due platform t loaded) 3 5 (omega arith) (expire_if_due-Within platform t loaded)

  cancel-Within : (input : CancelContinuationInput) → Within (cancel platform input) 7
  unfolding cancel cancel_loaded ◌>>=◌
  cancel-Within input =
      Within-bind _ 6 (λ s. by_lifecycle s s.lifecycle) (load_required input.continuation_id) 1 7
        (omega arith) (load_required-Within input.continuation_id)
    where
      by_lifecycle :
          (s : ContinuationEnvelope) (l : Lifecycle) → Within (cancel_loaded platform input s l) 6
      by_lifecycle s (Lifecycle.cancelled at reason) =
          Within-more (lift_domain (resolve_completed_cancellation s reason input)) 0 6
            (omega arith) (resolved_cancellation-Within s reason input)
      by_lifecycle s (Lifecycle.pending hash) = λ t. after_expiry-Within input s t
      by_lifecycle s (Lifecycle.resumed at key payload) = λ t. after_expiry-Within input s t
      by_lifecycle s (Lifecycle.expired at) = λ t. after_expiry-Within input s t

  inspect-Within : (id : ContinuationId) → Within (inspect platform id) 5
  unfolding inspect
  inspect-Within id =
      Within-bind _ 4 (expire_if_due_now-Within platform) (load_required id) 1 5 (omega arith)
        (load_required-Within id)

  history-Within : (id : ContinuationId) → Within (history id) 1
  unfolding history some_history ◌>>=◌
  history-Within id = λ r. Within-bind _ 0 given (lift r) 0 0 (omega arith) (lift-Within r)
    where
      given : (es : List ContinuationEvent) → Within (some_history id es) 0
      given [] = tt
      given (e ∷ es) = tt

  or_generated-Within : (o : Option Text) → Within (or_generated o) 1
  or_generated-Within none = λ id. tt
  or_generated-Within (some id) = tt

  append_creation-Within :
      (id : ContinuationId) (event : ContinuationEvent) (token : Text)
      → Within (append_creation id event token) 2
  unfolding append_creation created_pending ◌>>=◌
  append_creation-Within id event token = λ r.
      Within-bind _ 1
        (λ u.
          Within-bind _ 1 (λ s. announced s s.lifecycle)
            (lift_domain (reduce_continuation none event)) 0 1 (omega arith) (lift_domain-Within _))
        (lift r) 0 1 (omega arith) (lift-Within r)
    where
      announced : (s : ContinuationEnvelope) (l : Lifecycle) → Within (created_pending token s l) 1
      announced s (Lifecycle.pending hash) = tt
      announced s (Lifecycle.resumed at key payload) = tt
      announced s (Lifecycle.cancelled at reason) = tt
      announced s (Lifecycle.expired at) = tt

  create_until-Within :
      (input : CreateContinuationInput) (id : ContinuationId) (correlation_id : Text)
      (t expires_at : Date)
      → Within (create_until platform input id correlation_id t expires_at) 3
  unfolding create_until ◌>>=◌
  create_until-Within input id correlation_id t expires_at = λ issued.
      Within-bind _ 2
        (λ at.
          Within-bind _ 2 (λ expires. append_creation-Within id _ issued.token)
            (iso_string platform expires_at) 0 2 (omega arith)
            (iso_string-Within platform expires_at))
        (iso_string platform t) 0 2 (omega arith) (iso_string-Within platform t)

  create-Within : (ttl : ℕ) (input : CreateContinuationInput) → Within (create platform ttl input) 6
  unfolding create ◌>>=◌
  create-Within ttl input = λ t.
      Within-bind _ 4
        (λ id.
          Within-bind _ 3
            (λ correlation_id.
              if-Within (date_le (or_default input.expires_at (date_plus t ttl)) t) _ _ 3 tt (
                create_until-Within input id correlation_id t
                  (or_default input.expires_at (date_plus t ttl))))
            (or_generated input.correlation_id) 1 4 (omega arith)
            (or_generated-Within input.correlation_id))
        (or_generated input.continuation_id) 1 5 (omega arith)
        (or_generated-Within input.continuation_id)

  with_reply :
      {A B : Type 0} (p : Program A) (f : A → B) (n : ℕ)
      → n + 0 ≤ 12
      → Within p n
      → Within (p >>= λ a. done (f a)) 12
  with_reply p f n l h = Within-bind (λ a. done (f a)) 0 (λ a. tt) p n 12 l h

  -- Twelve steps are enough for every call.
  pub serve-Within : (ttl : ℕ) (call : Call) → Within (serve platform ttl call) 12
  unfolding serve
  serve-Within ttl (creates input) = with_reply _ issued 6 (omega arith) (create-Within ttl input)
  serve-Within ttl (resumes_with input) =
      with_reply _ envelope 12 (omega arith) (resume-Within platform input)
  serve-Within ttl (cancels_with input) =
      with_reply _ envelope 7 (omega arith) (cancel-Within input)
  serve-Within ttl (inspects id) = with_reply _ envelope 5 (omega arith) (inspect-Within id)
  serve-Within ttl (reads_history id) = with_reply _ events 1 (omega arith) (history-Within id)

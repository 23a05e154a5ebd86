-- ===== src/Service/Ending.antt =====
-- The reads, the expiry and the resumes of the service end within a fixed number of steps.
pub mod Calls
use pausemesh.Prelude.{
  ℕ, suc, ◌+◌, ◌≤◌, ◌≡◌, refl, Bool, true, false, Option, none, some, List, [], ◌∷◌, Result, ok,
  err, if◌then◌else◌, leb, arith, Bool-cases, inl, inr,
}
use pausemesh.Prelude.Text.{Text}
use pausemesh.Domain.Types.{ContinuationId, ContinuationEnvelope, ContinuationStatus, Lifecycle}
use pausemesh.Domain.Events.{ContinuationEvent, EventBody}
use pausemesh.Domain.Errors.{PauseMeshError, PauseMeshErrorCode}
use pausemesh.Domain.Reducer.{reduce_continuation, replay_continuation}
use pausemesh.Ports.Failure.{Failure, is_version_conflict}
use pausemesh.Ports.Platform.{Date, Platform, max_time, date_lt, date_le, date_plus}
use pausemesh.Service.Program.{Program, done, ◌>>=◌, lift, lift_domain, iso_string}
use pausemesh.Service.Inputs.{
  CreateContinuationInput, ResumeContinuationInput, CancelContinuationInput, fence,
}
use pausemesh.Service.Lookup.{
  or_default, or_generated, found_or_fail, load_required, body_hash, created_hash,
  load_resume_context,
}
use pausemesh.Service.Outcomes.{
  resolve_completed_resume, resolve_completed_cancellation, reject, require_matching_token,
}
use pausemesh.Service.Expiry.{
  transitioned, append_expiry, reload_on_conflict, expire_pending, expire_by, expire_if_due,
  expire_if_due_now,
}
use pausemesh.Service.Token.{token_hashes_equal}
use pausemesh.Service.Methods.{
  resumable, require_resumable, resolved_or_fail, resolve_again, after_resume_append,
  resume_pending, resume_unless_replayed, resume, cancelled_again, cancel_conflict,
  after_cancel_append, cancel_pending, cancel_fenced, cancel_current, cancel_loaded, cancel,
  inspect, created_pending, append_creation, create_until, create, history, some_history,
}
use pausemesh.Service.Calls.{
  Call, creates, resumes_with, cancels_with, inspects, reads_history, issued, envelope, events,
  serve,
}
use pausemesh.Service.Bounded.{Within, Within-more, Within-bind, Within-attempt}

pub lift-Within : {A : Type 0} (r : Result Failure A) → Within (lift r) 0
lift-Within (ok a) = tt
lift-Within (err e) = tt

pub lift_domain-Within : {A : Type 0} (r : Result PauseMeshError A) → Within (lift_domain r) 0
lift_domain-Within (ok a) = tt
lift_domain-Within (err e) = tt

pub if-Within :
    {A : Type 0} (b : Bool) (p q : Program A) (n : ℕ)
    → Within p n
    → Within q n
    → Within (if b then p else q) n
if-Within true p q n h k = h
if-Within false p q n h k = k

pub iso_string-Within : (platform : Platform) (d : Date) → Within (iso_string platform d) 0
iso_string-Within platform none = tt
iso_string-Within platform (some t) = if-Within (leb t max_time) _ _ 0 tt tt

pub found_or_fail-Within :
    (id : ContinuationId) (o : Option ContinuationEnvelope) → Within (found_or_fail id o) 0
unfolding found_or_fail
found_or_fail-Within id none = tt
found_or_fail-Within id (some s) = tt

pub load_required-Within : (id : ContinuationId) → Within (load_required id) 1
unfolding load_required ◌>>=◌
load_required-Within id = λ r.
    Within-bind _ 0
      (λ es.
        Within-bind _ 0 (found_or_fail-Within id) (lift_domain (replay_continuation es)) 0 0
          (omega arith) (lift_domain-Within _))
      (lift r) 0 0 (omega arith) (lift-Within r)

pub created_hash-Within : (es : List ContinuationEvent) → Within (created_hash es) 0
unfolding created_hash body_hash
created_hash-Within [] = tt
created_hash-Within (event ∷ rest) = body_hash-Within event.body
  where
    body_hash-Within : (body : EventBody) → Within (body_hash body) 0
    body_hash-Within (EventBody.created correlation_id expires_at payload metadata hash) = tt
    body_hash-Within (EventBody.resumed key payload) = tt
    body_hash-Within (EventBody.cancelled reason) = tt
    body_hash-Within EventBody.expired = tt

pub load_resume_context-Within : (id : ContinuationId) → Within (load_resume_context id) 1
unfolding load_resume_context ◌>>=◌
load_resume_context-Within id = λ r.
    Within-bind _ 0
      (λ es.
        Within-bind _ 0
          (λ o.
            Within-bind _ 0
              (λ s.
                Within-bind _ 0 (λ hash. tt) (created_hash es) 0 0 (omega arith)
                  (created_hash-Within es))
              (found_or_fail id o) 0 0 (omega arith) (found_or_fail-Within id o))
          (lift_domain (replay_continuation es)) 0 0 (omega arith) (lift_domain-Within _))
      (lift r) 0 0 (omega arith) (lift-Within r)

pub transitioned-Within :
    (state : ContinuationEnvelope) (event : ContinuationEvent) (status : ContinuationStatus)
    → Within (transitioned state event status) 1
unfolding transitioned ◌>>=◌
transitioned-Within state event status =
    Within-bind _ 1 (λ next. tt) (lift_domain (reduce_continuation (some state) event)) 0 1
      (omega arith) (lift_domain-Within _)

module _ (platform : Platform) where
  pub reject-Within :
      (id : ContinuationId) (code : PauseMeshErrorCode) → Within (reject platform id code) 2
  unfolding reject ◌>>=◌
  reject-Within id code = λ t.
      Within-bind _ 1 (λ at. tt) (iso_string platform t) 0 1 (omega arith)
        (iso_string-Within platform t)

  pub require_matching_token-Within :
      (id : ContinuationId) (hash token : Text)
      → Within (require_matching_token platform id hash token) 2
  unfolding require_matching_token
  require_matching_token-Within id hash token =
      if-Within (token_hashes_equal hash (platform.hash_token token)) _ _ 2 tt (
        Within-bind _ 0 (λ u. tt) _ 2 2 (omega arith)
          (reject-Within id PauseMeshErrorCode.token_mismatch))

  pub append_expiry-Within :
      (state : ContinuationEnvelope) (event : ContinuationEvent)
      → Within (append_expiry state event) 2
  unfolding append_expiry ◌>>=◌
  append_expiry-Within state event = λ r.
      Within-bind _ 1 (λ u. transitioned-Within state event ContinuationStatus.expired) (lift r) 0 1
        (omega arith) (lift-Within r)

  pub reload_on_conflict-Within :
      (id : ContinuationId) (e : Failure) → Within (reload_on_conflict id e) 1
  unfolding reload_on_conflict
  reload_on_conflict-Within id e =
      if-Within (is_version_conflict e) _ _ 1 (load_required-Within id) tt

  pub expire_pending-Within :
      (t : Date) (state : ContinuationEnvelope) → Within (expire_pending platform t state) 3
  unfolding expire_pending
  expire_pending-Within t state =
      Within-bind _ 3
        (λ at.
          Within-attempt _ 1 (reload_on_conflict-Within state.continuation_id) _ 2 3 (omega arith)
            (append_expiry-Within state _))
        (iso_string platform t) 0 3 (omega arith) (iso_string-Within platform t)

  pub expire_if_due-Within :
      (t : Date) (state : ContinuationEnvelope) → Within (expire_if_due platform t state) 3
  unfolding expire_if_due expire_by
  expire_if_due-Within t state = by_lifecycle state.lifecycle
    where
      by_lifecycle : (l : Lifecycle) → Within (expire_by platform t state l) 3
      by_lifecycle (Lifecycle.pending hash) =
          if-Within (date_lt t (platform.parse_date state.expires_at)) _ _ 3 tt
            (expire_pending-Within t state)
      by_lifecycle (Lifecycle.resumed at key payload) = tt
      by_lifecycle (Lifecycle.cancelled at reason) = tt
      by_lifecycle (Lifecycle.expired at) = tt

  pub expire_if_due_now-Within :
      (state : ContinuationEnvelope) → Within (expire_if_due_now platform state) 4
  unfolding expire_if_due_now ◌>>=◌
  expire_if_due_now-Within state = λ t. expire_if_due-Within t state

  pub require_resumable-Within :
      (state : ContinuationEnvelope) → Within (require_resumable platform state) 4
  unfolding require_resumable resumable
  require_resumable-Within state =
      Within-bind _ 0 (λ s. resumable-Within s s.lifecycle) _ 4 4 (omega arith)
        (expire_if_due_now-Within state)
    where
      resumable-Within : (s : ContinuationEnvelope) (l : Lifecycle) → Within (resumable s l) 0
      resumable-Within s (Lifecycle.pending hash) = tt
      resumable-Within s (Lifecycle.resumed at key payload) = tt
      resumable-Within s (Lifecycle.cancelled at reason) = tt
      resumable-Within s (Lifecycle.expired at) = tt

  pub resolve_again-Within :
      (input : ResumeContinuationInput) (e : Failure) → Within (resolve_again platform input e) 3
  unfolding resolve_again resolved_or_fail
  resolve_again-Within input e =
      Within-bind _ 2
        (λ context.
          Within-bind _ 0
            (λ u.
              Within-bind _ 0 (resolved_or_fail-Within e) _ 0 0 (omega arith)
                (lift_domain-Within _))
            _ 2 2 (omega arith)
            (require_matching_token-Within input.continuation_id context.resume_token_hash
              input.resume_token))
        _ 1 3 (omega arith) (load_resume_context-Within input.continuation_id)
    where
      resolved_or_fail-Within :
          (e : Failure) (o : Option ContinuationEnvelope) → Within (resolved_or_fail e o) 0
      resolved_or_fail-Within e none = tt
      resolved_or_fail-Within e (some s) = tt

  pub after_resume_append-Within :
      (input : ResumeContinuationInput) (s : ContinuationEnvelope) (event : ContinuationEvent)
      (r : Result Failure (Unit {0}))
      → Within (after_resume_append platform input s event r) 3
  unfolding after_resume_append
  after_resume_append-Within input s event (ok u) =
      Within-more (transitioned s event ContinuationStatus.resumed) 1 3 (omega arith)
        (transitioned-Within s event ContinuationStatus.resumed)
  after_resume_append-Within input s event (err e) =
      if-Within (is_version_conflict e) _ _ 3 (resolve_again-Within input e) tt

  pub resume_pending-Within :
      (input : ResumeContinuationInput) (s : ContinuationEnvelope)
      → Within (resume_pending platform input s) 5
  unfolding resume_pending ◌>>=◌
  resume_pending-Within input s = λ t.
      Within-bind _ 4 (λ at r. after_resume_append-Within input s _ r) (iso_string platform t) 0 4
        (omega arith) (iso_string-Within platform t)

  pub resume-Within : (input : ResumeContinuationInput) → Within (resume platform input) 12
  unfolding resume resume_unless_replayed
  resume-Within input =
      Within-bind _ 11
        (λ context.
          Within-bind _ 9
            (λ u.
              Within-bind _ 9 (λ o. unless_replayed context.continuation o) _ 0 9 (omega arith)
                (lift_domain-Within _))
            _ 2 11 (omega arith)
            (require_matching_token-Within input.continuation_id context.resume_token_hash
              input.resume_token))
        _ 1 12 (omega arith) (load_resume_context-Within input.continuation_id)
    where
      unless_replayed :
          (s : ContinuationEnvelope) (o : Option ContinuationEnvelope)
          → Within (resume_unless_replayed platform input s o) 9
      unless_replayed s (some outcome) = tt
      unless_replayed s none =
          Within-bind _ 5 (resume_pending-Within input) _ 4 9 (omega arith)
            (require_resumable-Within s)

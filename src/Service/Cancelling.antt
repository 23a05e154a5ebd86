-- ===== src/Service/Cancelling.antt =====
-- What `cancel` ensures.
use pausemesh.Prelude.{
  ℕ, ◌+◌, ◌≡◌, refl, ◌∙◌, ap, Bool, true, Option, none, some, Result, ok, err, Bool-cases, inl, inr,
  arith,
}
use pausemesh.Prelude.Text.{Text, text_eq_iff}
use pausemesh.Domain.Types.{ContinuationEnvelope, ContinuationStatus, Lifecycle}
use pausemesh.Domain.Events.{ContinuationEvent, EventBody}
use pausemesh.Domain.Errors.{PauseMeshError}
use pausemesh.Domain.Reducer.{terminal}
use pausemesh.Domain.Reducer.Steps.{cancels, Transition, reduce_of_Transition, lifecycle-terminal}
use pausemesh.Ports.Failure.{Failure, is_version_conflict}
use pausemesh.Ports.Platform.{Date, Platform}
use pausemesh.Ports.EventStore.{Streams}
use pausemesh.Service.Program.{◌>>=◌, lift_domain}
use pausemesh.Service.Inputs.{option_text_eq, fence, CancelContinuationInput}
use pausemesh.Service.Lookup.{load_required}
use pausemesh.Service.Outcomes.{resolve_completed_cancellation}
use pausemesh.Service.Expiry.{closing_event, expire_if_due}
use pausemesh.Service.Methods.{
  cancelled_again, cancel_conflict, after_cancel_append, cancel_pending, cancel_fenced,
  cancel_current, cancel_loaded, cancel,
}
use pausemesh.Service.Ensures.{Post, Ensures, Ensures-bind}
use pausemesh.Service.Promises.{Read, closing_Transition, append-Transition}
use pausemesh.Service.Reads.{Reads, load_required-Ensures}
use pausemesh.Service.Expiring.{iso_string-Ensures, transitioned-Ensures, expire_if_due-Ensures}

-- A state that records the cancellation of this input: its reason, at the version that it expects.
pub record IsCancellation (input : CancelContinuationInput) (s : ContinuationEnvelope)
    : Type 0 where
  pub at : Text
  pub cancelled : s.lifecycle ≡ Lifecycle.cancelled at input.reason
  pub fenced : (expected : ℕ) → input.expected_version ≡ some expected → s.version ≡ expected + 1

abbrev pub Cancels : CancelContinuationInput → Post ContinuationEnvelope
Cancels input (ok s) streams = Read input.continuation_id s streams × IsCancellation input s
Cancels input (err e) streams = Unit

option_text_eq→eq : (s t : Option Text) → option_text_eq s t ≡ true → s ≡ t
option_text_eq→eq none none e = refl
option_text_eq→eq (some s) (some t) e = ap some ((text_eq_iff s t).0 e)
option_text_eq→eq none (some t) e = cc
option_text_eq→eq (some s) none e = cc

fence_passed :
    (expected : Option ℕ) (actual x : ℕ)
    → fence expected actual ≡ none
    → expected ≡ some x
    → actual ≡ x
fence_passed expected actual x e p = ground arith

resolve_sound :
    (input : CancelContinuationInput) (s o : ContinuationEnvelope) (at : Text)
    (reason : Option Text)
    → s.lifecycle ≡ Lifecycle.cancelled at reason
    → resolve_completed_cancellation s reason input ≡ ok o
    → (s ≡ o) × IsCancellation input s
unfolding resolve_completed_cancellation
resolve_sound input s o at reason p e = (
  ground arith,
  record {
    at = at;
    cancelled = ground (arith, option_text_eq→eq reason input.reason);
    fenced = λ x q. ground (arith, q);
  },
)

module _ (accepts : ContinuationEvent → Bool) (platform : Platform)
    (input : CancelContinuationInput) where
  abbrev Q : Post ContinuationEnvelope
  Q = Cancels input

  resolved-Ensures :
      (s : ContinuationEnvelope) (at : Text) (reason : Option Text) (streams : Streams)
      (r : Result PauseMeshError ContinuationEnvelope)
      → resolve_completed_cancellation s reason input ≡ r
      → s.lifecycle ≡ Lifecycle.cancelled at reason
      → Read input.continuation_id s streams
      → Ensures accepts Q (lift_domain r) streams
  resolved-Ensures s at reason streams (ok o) e p r =
      let (same, c) = resolve_sound input s o at reason p e in rw (← same) (r, c)
  resolved-Ensures s at reason streams (err x) e p r = tt

  again-Ensures :
      (error : Failure) (s : ContinuationEnvelope) (l : Lifecycle) (streams : Streams)
      → s.lifecycle ≡ l
      → Read input.continuation_id s streams
      → Ensures accepts Q (cancelled_again input error s l) streams
  unfolding cancelled_again
  again-Ensures error s (Lifecycle.cancelled at reason) streams p r =
      resolved-Ensures s at reason streams _ refl p r
  again-Ensures error s (Lifecycle.pending h) streams p r = tt
  again-Ensures error s (Lifecycle.resumed at key payload) streams p r = tt
  again-Ensures error s (Lifecycle.expired at) streams p r = tt

  conflict-Ensures :
      (error : Failure) (streams : Streams)
      → Ensures accepts Q (cancel_conflict input error) streams
  unfolding cancel_conflict
  conflict-Ensures error streams =
      Ensures-bind accepts (Reads input.continuation_id (λ _. Unit)) Q
        (load_required input.continuation_id) _ streams
        (load_required-Ensures accepts input.continuation_id (λ _. Unit) (λ s t k l. tt) streams tt)
        (λ current t (r, k). again-Ensures error current current.lifecycle t refl r) (λ e t h. tt)

  after_append-Ensures :
      (s : ContinuationEnvelope) (event : ContinuationEvent) (streams : Streams) (e : Failure)
      → Ensures accepts Q (after_cancel_append input s event (err e)) streams
  unfolding after_cancel_append
  after_append-Ensures s event streams e = elim (Bool-cases (is_version_conflict e)) [
    | inl conflict ↦ rw conflict (conflict-Ensures e streams)
    | inr other ↦ rw other tt
  ]

  pending-Ensures :
      (d : Date) (s : ContinuationEnvelope) (h : Text) (streams : Streams)
      → s.lifecycle ≡ Lifecycle.pending h
      → fence input.expected_version s.version ≡ none
      → Read input.continuation_id s streams
      → Ensures accepts Q (cancel_pending platform input d s) streams
  unfolding cancel_pending after_cancel_append
  pending-Ensures d s h streams p f r =
      iso_string-Ensures accepts platform Q d _ streams
        (λ at.
          let event = closing_event input.continuation_id s at (EventBody.cancelled input.reason) in
          let t = terminal s (s.version + 1) (Lifecycle.cancelled at input.reason) in
          let step : Transition s event t =
            closing_Transition input.continuation_id s h at p r.2 cancels in
          append-Transition accepts Q input.continuation_id s t event
            (after_cancel_append input s event) streams r step
            (λ u l now_at.
              transitioned-Ensures accepts platform Q s t event ContinuationStatus.cancelled u
                (reduce_of_Transition s event t step)
                (
                  now_at,
                  record {
                    at = at;
                    cancelled = lifecycle-terminal s (s.version + 1) _;
                    fenced = λ x q.
                        step.version
                        ∙ ap (λ (n : ℕ). n + 1)
                            (fence_passed input.expected_version s.version x f q);
                  },
                ))
            (λ e u l. after_append-Ensures s event u e))
        tt

  fenced-Ensures :
      (d : Date) (s : ContinuationEnvelope) (h : Text) (o : Option ℕ) (streams : Streams)
      → fence input.expected_version s.version ≡ o
      → s.lifecycle ≡ Lifecycle.pending h
      → Read input.continuation_id s streams
      → Ensures accepts Q (cancel_fenced platform input d s o) streams
  unfolding cancel_fenced
  fenced-Ensures d s h none streams e p r = pending-Ensures d s h streams p e r
  fenced-Ensures d s h (some x) streams e p r = tt

  current-Ensures :
      (d : Date) (s : ContinuationEnvelope) (l : Lifecycle) (streams : Streams)
      → s.lifecycle ≡ l
      → Read input.continuation_id s streams
      → Ensures accepts Q (cancel_current platform input d s l) streams
  unfolding cancel_current
  current-Ensures d s (Lifecycle.cancelled at reason) streams p r =
      resolved-Ensures s at reason streams _ refl p r
  current-Ensures d s (Lifecycle.expired at) streams p r = tt
  current-Ensures d s (Lifecycle.resumed at key payload) streams p r = tt
  current-Ensures d s (Lifecycle.pending h) streams p r =
      fenced-Ensures d s h (fence input.expected_version s.version) streams refl p r

  expired_first-Ensures :
      (s : ContinuationEnvelope) (streams : Streams)
      → Read input.continuation_id s streams
      → (d : Date)
      → Ensures accepts Q
          (expire_if_due platform d s >>= λ state.
            cancel_current platform input d state state.lifecycle)
          streams
  expired_first-Ensures s streams r d =
      Ensures-bind accepts (Reads input.continuation_id (λ _. Unit)) Q (expire_if_due platform d s)
        _ streams
        (expire_if_due-Ensures accepts platform input.continuation_id (λ _. Unit) (λ _ _ k l. tt) d
          s streams r tt)
        (λ state t (r', k). current-Ensures d state state.lifecycle t refl r') (λ e t h. tt)

  loaded-Ensures :
      (s : ContinuationEnvelope) (l : Lifecycle) (streams : Streams)
      → s.lifecycle ≡ l
      → Read input.continuation_id s streams
      → Ensures accepts Q (cancel_loaded platform input s l) streams
  unfolding cancel_loaded ◌>>=◌
  loaded-Ensures s (Lifecycle.cancelled at reason) streams p r =
      resolved-Ensures s at reason streams _ refl p r
  loaded-Ensures s _ streams p r = expired_first-Ensures s streams r

  -- Whatever other clients do between its steps, a cancellation that returns answers with a state
  -- that the stream recorded for this reason, one version after the one that the input expects.
  pub cancel-Ensures : (streams : Streams) → Ensures accepts Q (cancel platform input) streams
  unfolding cancel
  cancel-Ensures streams =
      Ensures-bind accepts (Reads input.continuation_id (λ _. Unit)) Q
        (load_required input.continuation_id) _ streams
        (load_required-Ensures accepts input.continuation_id (λ _. Unit) (λ s t k l. tt) streams tt)
        (λ s t (r, k). loaded-Ensures s s.lifecycle t refl r) (λ e t h. tt)

-- ===== src/Service/Resuming.antt =====
-- What `resume` ensures.
use pausemesh.Prelude.{
  ◌+◌, ◌≡◌, refl, Bool, true, Option, none, some, Result, ok, err, Bool-cases, inl, inr, arith,
}
use pausemesh.Prelude.Text.{Text, text_eq_iff}
use pausemesh.Json.{Json}
use pausemesh.Json.Canonical.{canonical_json}
use pausemesh.Domain.Types.{ContinuationId, ContinuationEnvelope, ContinuationStatus, Lifecycle}
use pausemesh.Domain.Events.{ContinuationEvent, EventBody}
use pausemesh.Domain.Errors.{PauseMeshError, PauseMeshErrorCode}
use pausemesh.Domain.Reducer.{terminal}
use pausemesh.Domain.Reducer.Steps.{resumes, Transition, reduce_of_Transition, lifecycle-terminal}
use pausemesh.Ports.Failure.{range_error, Failure, domain, is_version_conflict}
use pausemesh.Ports.Platform.{Platform}
use pausemesh.Ports.EventStore.{Streams}
use pausemesh.Service.Program.{Program, ◌>>=◌, lift_domain}
use pausemesh.Service.Inputs.{ResumeContinuationInput}
use pausemesh.Service.Lookup.{load_resume_context}
use pausemesh.Service.Outcomes.{
  resumed_outcome, resolve_completed_resume, reject, require_matching_token,
}
use pausemesh.Service.Expiry.{closing_event, expire_if_due_now}
use pausemesh.Service.Token.{token_hashes_equal}
use pausemesh.Service.Methods.{
  resumable, require_resumable, resolved_or_fail, resolve_again, after_resume_append,
  resume_pending, resume_unless_replayed, resume,
}
use pausemesh.Service.Ensures.{Later, Post, Ensures, Ensures-bind}
use pausemesh.Service.Promises.{Read, closing_Transition, append-Transition}
use pausemesh.Service.Reads.{
  Reads, HasHash, HasHash-Prefix, ReadsContext, load_resume_context-Ensures,
}
use pausemesh.Service.Expiring.{iso_string-Ensures, transitioned-Ensures, expire_if_due_now-Ensures}

-- A state that records the resume of this input: its key, and a payload with its canonical text.
pub record IsOutcome (input : ResumeContinuationInput) (s : ContinuationEnvelope) : Type 0 where
  pub at : Text
  pub payload : Json
  pub resumed : s.lifecycle ≡ Lifecycle.resumed at input.idempotency_key payload
  pub same_payload : canonical_json payload ≡ canonical_json input.resume_payload

-- The token has the hash with which the stream was created.
abbrev pub IsAuthorized : Platform → ContinuationId → Text → Streams → Type 0
IsAuthorized platform id token streams =
    (hash : Text) × HasHash (streams id) hash
    × (token_hashes_equal hash (platform.hash_token token) ≡ true)

pub IsAuthorized-Later :
    (platform : Platform) (id : ContinuationId) (token : Text) (s t : Streams)
    → IsAuthorized platform id token s
    → Later s t
    → IsAuthorized platform id token t
IsAuthorized-Later platform id token s t (hash, h, e) l =
    (hash, HasHash-Prefix (s id) (t id) hash h (l.0 id), e)

-- The outcome of a resume: a recorded state of the stream, for a holder of its token.
abbrev pub Resumes : Platform → ResumeContinuationInput → Post ContinuationEnvelope
Resumes platform input (ok s) streams =
    Read input.continuation_id s streams
    × IsOutcome input s
    × IsAuthorized platform input.continuation_id input.resume_token streams
Resumes platform input (err e) streams = Unit

resumed_outcome_sound :
    (input : ResumeContinuationInput) (s o : ContinuationEnvelope) (l : Lifecycle)
    → s.lifecycle ≡ l
    → resumed_outcome s input l ≡ ok (some o)
    → (s ≡ o) × IsOutcome input s
unfolding resumed_outcome
resumed_outcome_sound input s o (Lifecycle.resumed at key payload) p e = (
  ground arith,
  record {
    at = at;
    payload = payload;
    resumed = ground (arith, text_eq_iff key input.idempotency_key);
    same_payload =
        ground (arith, text_eq_iff (canonical_json payload) (canonical_json input.resume_payload));
  },
)
resumed_outcome_sound input s o (Lifecycle.pending h) p e = ground arith
resumed_outcome_sound input s o (Lifecycle.cancelled at r) p e = ground arith
resumed_outcome_sound input s o (Lifecycle.expired at) p e = ground arith

module _ (accepts : ContinuationEvent → Bool) (platform : Platform) where
  reject-Ensures :
      (P : Post (Unit {0})) (id : ContinuationId) (code : PauseMeshErrorCode) (streams : Streams)
      → P (ok tt) streams
      → P (err range_error) streams
      → Ensures accepts P (reject platform id code) streams
  unfolding reject ◌>>=◌
  reject-Ensures P id code streams h e =
      λ d. iso_string-Ensures accepts platform P d _ streams (λ at. h) e

  module _ {A : Type 0} (Q : Post A) where
    AfterMismatch : PauseMeshError → Post (Unit {0})
    AfterMismatch x (ok done) streams = Q (err (domain x)) streams
    AfterMismatch x (err e) streams = Q (err e) streams

    Mismatched : Post (Unit {0})
    Mismatched (ok done) streams = ⊥
    Mismatched (err e) streams = Q (err e) streams

    -- A wrong token ends the call; the observer's clock may end it as well.
    pub require_matching_token-Ensures :
        (id : ContinuationId) (hash token : Text) (f : Unit {0} → Program A) (streams : Streams)
        → (token_hashes_equal hash (platform.hash_token token) ≡ true
            → Ensures accepts Q (f tt) streams)
        → ((e : Failure) → Q (err e) streams)
        → Ensures accepts Q (require_matching_token platform id hash token >>= f) streams
    unfolding require_matching_token reject Mismatched AfterMismatch
    require_matching_token-Ensures id hash token f streams good bad =
        elim (Bool-cases (token_hashes_equal hash (platform.hash_token token))) [
          | inl same ↦ rw same (unfold ◌>>=◌ in good same)
          | inr other ↦ rw other (
              Ensures-bind accepts Mismatched Q _ f streams
                (Ensures-bind accepts (AfterMismatch (PauseMeshError.token_mismatch id)) Mismatched
                  (reject platform id PauseMeshErrorCode.token_mismatch) _ streams
                  (reject-Ensures (AfterMismatch (PauseMeshError.token_mismatch id)) id
                    PauseMeshErrorCode.token_mismatch streams (bad _) (bad _))
                  (λ a t h. h) (λ e t h. h))
                (λ a t h. absurd h) (λ e t h. h))
        ]

  module _ (input : ResumeContinuationInput) where
    abbrev Q : Post ContinuationEnvelope
    Q = Resumes platform input

    abbrev K : Streams → Type 0
    K = IsAuthorized platform input.continuation_id input.resume_token

    keep : (s t : Streams) → K s → Later s t → K t
    keep = IsAuthorized-Later platform input.continuation_id input.resume_token

    -- A recorded outcome is answered; otherwise the call goes on.
    replayed-Ensures :
        (s : ContinuationEnvelope) (f : Option ContinuationEnvelope → Program ContinuationEnvelope)
        (streams : Streams) (r : Result PauseMeshError (Option ContinuationEnvelope))
        → resolve_completed_resume s input ≡ r
        → ((o : ContinuationEnvelope)
            → s ≡ o
            → IsOutcome input s
            → Ensures accepts Q (f (some o)) streams)
        → Ensures accepts Q (f none) streams
        → Ensures accepts Q (lift_domain r >>= f) streams
    unfolding resolve_completed_resume ◌>>=◌
    replayed-Ensures s f streams (ok (some o)) e yes_case no_case =
        let (same, outcome) = resumed_outcome_sound input s o s.lifecycle refl e in
        yes_case o same outcome
    replayed-Ensures s f streams (ok none) e yes_case no_case = no_case
    replayed-Ensures s f streams (err x) e yes_case no_case = tt

    again-Ensures :
        (error : Failure) (streams : Streams)
        → Ensures accepts Q (resolve_again platform input error) streams
    unfolding resolve_again resolved_or_fail
    again-Ensures error streams =
        Ensures-bind accepts (ReadsContext input.continuation_id) Q
          (load_resume_context input.continuation_id) _ streams
          (load_resume_context-Ensures accepts input.continuation_id streams)
          (λ context t (r, h).
            require_matching_token-Ensures Q input.continuation_id context.resume_token_hash
              input.resume_token _ t
              (λ same.
                replayed-Ensures context.continuation (resolved_or_fail error) t _ refl
                  (λ o e outcome. rw (← e) (r, outcome, (context.resume_token_hash, h, same))) tt)
              (λ e. tt))
          (λ e t h. tt)

    after_append-Ensures :
        (s t : ContinuationEnvelope) (event : ContinuationEvent) (streams : Streams) (e : Failure)
        → Ensures accepts Q (after_resume_append platform input s event (err e)) streams
    unfolding after_resume_append
    after_append-Ensures s t event streams e = elim (Bool-cases (is_version_conflict e)) [
      | inl conflict ↦ rw conflict (again-Ensures e streams)
      | inr other ↦ rw other tt
    ]

    pending-Ensures :
        (s : ContinuationEnvelope) (h : Text) (streams : Streams)
        → s.lifecycle ≡ Lifecycle.pending h
        → Read input.continuation_id s streams
        → K streams
        → Ensures accepts Q (resume_pending platform input s) streams
    unfolding resume_pending after_resume_append ◌>>=◌
    pending-Ensures s h streams p r k = λ d.
        iso_string-Ensures accepts platform Q d _ streams
          (λ at.
            let body = EventBody.resumed input.idempotency_key input.resume_payload in
            let event = closing_event input.continuation_id s at body in
            let t =
              terminal s (s.version + 1)
                (Lifecycle.resumed at input.idempotency_key input.resume_payload) in
            let step : Transition s event t =
              closing_Transition input.continuation_id s h at p r.2 resumes in
            append-Transition accepts Q input.continuation_id s t event
              (after_resume_append platform input s event) streams r step
              (λ u l now_at.
                transitioned-Ensures accepts platform Q s t event ContinuationStatus.resumed u
                  (reduce_of_Transition s event t step)
                  (
                    now_at,
                    record {
                      at = at;
                      payload = input.resume_payload;
                      resumed = lifecycle-terminal s (s.version + 1) _;
                      same_payload = refl;
                    },
                    keep streams u k l,
                  ))
              (λ e u l. after_append-Ensures s t event u e))
          tt

    -- A pending state of the stream, held by a caller with its token.
    abbrev Resumable : Post ContinuationEnvelope
    Resumable (ok s) streams =
        (h : Text) × (s.lifecycle ≡ Lifecycle.pending h)
        × Read input.continuation_id s streams
        × K streams
    Resumable (err e) streams = Unit

    resumable-Ensures :
        (s : ContinuationEnvelope) (l : Lifecycle) (streams : Streams)
        → s.lifecycle ≡ l
        → Read input.continuation_id s streams
        → K streams
        → Ensures accepts Resumable (resumable s l) streams
    unfolding resumable
    resumable-Ensures s (Lifecycle.pending h) streams p r k = (h, p, r, k)
    resumable-Ensures s (Lifecycle.resumed at key payload) streams p r k = tt
    resumable-Ensures s (Lifecycle.cancelled at reason) streams p r k = tt
    resumable-Ensures s (Lifecycle.expired at) streams p r k = tt

    require_resumable-Ensures :
        (s : ContinuationEnvelope) (streams : Streams)
        → Read input.continuation_id s streams
        → K streams
        → Ensures accepts Resumable (require_resumable platform s) streams
    unfolding require_resumable
    require_resumable-Ensures s streams r k =
        Ensures-bind accepts (Reads input.continuation_id K) Resumable
          (expire_if_due_now platform s) _ streams
          (expire_if_due_now-Ensures accepts platform input.continuation_id K keep s streams r k)
          (λ current t (r', k'). resumable-Ensures current current.lifecycle t refl r' k')
          (λ e t h. tt)

    -- Whatever other clients do between its steps, a resume that returns answers with a state that
    -- the stream recorded for this key and this payload, to a caller with the token of the stream.
    pub resume-Ensures : (streams : Streams) → Ensures accepts Q (resume platform input) streams
    unfolding resume resume_unless_replayed
    resume-Ensures streams =
        Ensures-bind accepts (ReadsContext input.continuation_id) Q
          (load_resume_context input.continuation_id) _ streams
          (load_resume_context-Ensures accepts input.continuation_id streams)
          (λ context t (r, h).
            require_matching_token-Ensures Q input.continuation_id context.resume_token_hash
              input.resume_token _ t
              (λ same.
                let k : K t = (context.resume_token_hash, h, same) in
                replayed-Ensures context.continuation
                  (resume_unless_replayed platform input context.continuation) t _ refl
                  (λ o e outcome. rw (← e) (r, outcome, k))
                  (Ensures-bind accepts Resumable Q
                    (require_resumable platform context.continuation)
                    (resume_pending platform input) t
                    (require_resumable-Ensures context.continuation t r k)
                    (λ s u (hash, p, r', k'). pending-Ensures s hash u p r' k') (λ e u q. tt)))
              (λ e. tt))
          (λ e t h. tt)

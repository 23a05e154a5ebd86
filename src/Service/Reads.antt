-- ===== src/Service/Reads.antt =====
-- What the reads of the service ensure.
use pausemesh.Prelude.{◌≡◌, refl, Bool, Option, none, some, List, [], ◌∷◌, Result, ok, err}
use pausemesh.Prelude.Text.{Text}
use pausemesh.Domain.Types.{ContinuationId, ContinuationEnvelope}
use pausemesh.Domain.Events.{ContinuationEvent, EventBody}
use pausemesh.Domain.Errors.{PauseMeshError}
use pausemesh.Domain.Reducer.{replay_continuation}
use pausemesh.Ports.EventStore.{Streams}
use pausemesh.Ports.EventStore.Streams.{Prefix, IsValid}
use pausemesh.Service.Program.{Program, ◌>>=◌, lift_domain}
use pausemesh.Service.Inputs.{ResumeContext}
use pausemesh.Service.Lookup.{
  found_or_fail, load_required, body_hash, created_hash, load_resume_context,
}
use pausemesh.Service.Ensures.{Later, Post, Ensures}
use pausemesh.Service.Promises.{Read, Read-of_replay}

-- A state that was read, with what else is known of the store.
abbrev pub Reads : ContinuationId → (Streams → Type 0) → Post ContinuationEnvelope
Reads id K (ok s) streams = Read id s streams × K streams
Reads id K (err e) streams = Unit

abbrev pub hash_of_body : EventBody → Option Text
hash_of_body (EventBody.created c x p m hash) = some hash
hash_of_body _ = none

-- The first event is a creation with this token hash.
abbrev pub HasHash : List ContinuationEvent → Text → Type 0
HasHash [] hash = ⊥
HasHash (event ∷ events) hash = hash_of_body event.body ≡ some hash

pub HasHash-Prefix :
    (xs ys : List ContinuationEvent) (hash : Text)
    → HasHash xs hash
    → Prefix xs ys
    → HasHash ys hash
HasHash-Prefix [] ys hash h p = elim h [ ]
HasHash-Prefix (x ∷ xs) ys hash h (zs, p) = rw p h

-- A read context: the state, and the token hash of the stream.
abbrev pub ReadsContext : ContinuationId → Post ResumeContext
ReadsContext id (ok context) streams =
    Read id context.continuation streams × HasHash (streams id) context.resume_token_hash
ReadsContext id (err e) streams = Unit

module _ (accepts : ContinuationEvent → Bool) (id : ContinuationId) where
  module _ (K : Streams → Type 0) (keep : (s t : Streams) → K s → Later s t → K t) where
    found-Ensures :
        (streams : Streams) (r : Result PauseMeshError (Option ContinuationEnvelope))
        → replay_continuation (streams id) ≡ r
        → IsValid streams
        → K streams
        → Ensures accepts (Reads id K) (lift_domain r >>= found_or_fail id) streams
    unfolding found_or_fail ◌>>=◌
    found-Ensures streams (ok none) e v k = tt
    found-Ensures streams (ok (some s)) e v k = (Read-of_replay id s streams v e, k)
    found-Ensures streams (err x) e v k = tt

    pub load_required-Ensures :
        (streams : Streams) → K streams → Ensures accepts (Reads id K) (load_required id) streams
    unfolding load_required ◌>>=◌
    load_required-Ensures streams k =
        λ t l. (found-Ensures t (replay_continuation (t id)) refl l.1 (keep streams t k l), tt)

  body-Ensures :
      (streams : Streams) (event : ContinuationEvent) (events : List ContinuationEvent)
      (s : ContinuationEnvelope) (body : EventBody)
      → event.body ≡ body
      → streams id ≡ event ∷ events
      → Read id s streams
      → Ensures accepts
          (ReadsContext id)
          (body_hash body >>= λ hash.
            Program.done (record { continuation = s; resume_token_hash = hash }))
          streams
  unfolding body_hash ◌>>=◌
  body-Ensures streams event events s (EventBody.created c x p m hash) b e r = (r, rw e (rw b refl))
  body-Ensures streams event events s _ b e r = tt

  hashed-Ensures :
      (streams : Streams) (events : List ContinuationEvent) (s : ContinuationEnvelope)
      → streams id ≡ events
      → Read id s streams
      → Ensures accepts
          (ReadsContext id)
          (created_hash events >>= λ hash.
            Program.done (record { continuation = s; resume_token_hash = hash }))
          streams
  unfolding created_hash ◌>>=◌
  hashed-Ensures streams [] s e r = tt
  hashed-Ensures streams (event ∷ events) s e r =
      body-Ensures streams event events s event.body refl e r

  context-Ensures :
      (streams : Streams) (r : Result PauseMeshError (Option ContinuationEnvelope))
      → replay_continuation (streams id) ≡ r
      → IsValid streams
      → Ensures accepts
          (ReadsContext id)
          (lift_domain r >>= λ state. found_or_fail id state >>= λ continuation.
            created_hash (streams id) >>= λ hash.
            Program.done (record { continuation = continuation; resume_token_hash = hash }))
          streams
  unfolding found_or_fail ◌>>=◌
  context-Ensures streams (ok none) e v = tt
  context-Ensures streams (ok (some s)) e v =
      hashed-Ensures streams (streams id) s refl (Read-of_replay id s streams v e)
  context-Ensures streams (err x) e v = tt

  pub load_resume_context-Ensures :
      (streams : Streams) → Ensures accepts (ReadsContext id) (load_resume_context id) streams
  unfolding load_resume_context ◌>>=◌
  load_resume_context-Ensures streams =
      λ t l. (context-Ensures t (replay_continuation (t id)) refl l.1, tt)

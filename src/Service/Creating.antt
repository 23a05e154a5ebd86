-- ===== src/Service/Creating.antt =====
-- What `create` ensures.
use pausemesh.Prelude.{
  ℕ, ◌≤◌, leb→le, ◌≡◌, refl, Bool, true, false, Option, none, some, ok, err, Bool-cases, inl, inr,
  leb, if◌then◌else◌, arith,
}
use pausemesh.Prelude.Text.{Text}
use pausemesh.Json.{Entries}
use pausemesh.Domain.Types.{ContinuationId, ContinuationEnvelope, Lifecycle}
use pausemesh.Domain.Events.{ContinuationEvent}
use pausemesh.Domain.Reducer.{reduce_continuation}
use pausemesh.Domain.Reducer.Steps.{reduce-Creation}
use pausemesh.Ports.Failure.{range_error}
use pausemesh.Ports.Platform.{Date, Platform, max_time, date_lt, date_le, date_plus}
use pausemesh.Ports.EventStore.{Streams}
use pausemesh.Service.Program.{Program, ◌>>=◌, lift, lift_domain, iso_string}
use pausemesh.Service.Inputs.{CreateContinuationInput, CreatedContinuation}
use pausemesh.Service.Lookup.{or_generated, or_default}
use pausemesh.Service.Methods.{
  created_pending, creation_event, append_creation, create_until, create,
}
use pausemesh.Service.Ensures.{Post, Ensures, Ensures-bind}
use pausemesh.Service.Promises.{Read, append_first, Read-own}

-- A pending continuation for this input: the identifiers that it asks for, its payload, and an
-- expiry after the creation.
pub record IsCreated (platform : Platform) (input : CreateContinuationInput)
    (s : ContinuationEnvelope) : Type 0 where
  pub hash : Text
  pub pending : s.lifecycle ≡ Lifecycle.pending hash
  pub first : s.version ≡ 1
  pub payload : s.payload ≡ input.payload
  pub identifier : (id : Text) → input.continuation_id ≡ some id → s.continuation_id ≡ id
  pub correlation : (id : Text) → input.correlation_id ≡ some id → s.correlation_id ≡ id
  pub expiry : date_lt (platform.parse_date s.created_at) (platform.parse_date s.expires_at) ≡ true

abbrev pub Creates : Platform → CreateContinuationInput → Post CreatedContinuation
Creates platform input (ok c) streams =
    Read c.continuation.continuation_id c.continuation streams
    × IsCreated platform input c.continuation
Creates platform input (err e) streams = Unit

module _ (accepts : ContinuationEvent → Bool) (platform : Platform) where
  module _ {A : Type 0} (Q : Post A) where
    -- As `iso_string-Ensures`, with the time that is printed.
    printed-Ensures :
        (d : Date) (f : Text → Program A) (streams : Streams)
        → ((t : ℕ)
            → d ≡ some t
            → t ≤ max_time
            → Ensures accepts Q (f (platform.iso_text t)) streams)
        → Q (err range_error) streams
        → Ensures accepts Q (iso_string platform d >>= f) streams
    unfolding ◌>>=◌
    printed-Ensures none f streams h e = e
    printed-Ensures (some t) f streams h e = elim (Bool-cases (leb t max_time)) [
      | inl fits ↦ rw fits (h t refl (leb→le t max_time fits))
      | inr late ↦ rw late e
    ]

  printed_expiry :
      (d e : Date) (s t : ℕ)
      → date_le e d ≡ false
      → d ≡ some s
      → s ≤ max_time
      → e ≡ some t
      → t ≤ max_time
      → date_lt
          (platform.parse_date (platform.iso_text s))
          (platform.parse_date (platform.iso_text t))
        ≡ true
  printed_expiry d e s t late p m q n =
      rw (platform.parse_date-iso_text s m, platform.parse_date-iso_text t n) (ground arith)

  module _ (input : CreateContinuationInput) where
    abbrev Q : Post CreatedContinuation
    Q = Creates platform input

    Chosen : Option Text → Post Text
    Chosen o (ok id) streams = (x : Text) → o ≡ some x → id ≡ x
    Chosen o (err e) streams = Unit

    or_generated-Ensures :
        (o : Option Text) (streams : Streams) → Ensures accepts (Chosen o) (or_generated o) streams
    unfolding Chosen
    or_generated-Ensures none streams = λ id x e. cc
    or_generated-Ensures (some id) streams = λ x e. ground arith

    pending-Ensures :
        (token : Text) (s : ContinuationEnvelope) (l : Lifecycle) (streams : Streams)
        → s.lifecycle ≡ l
        → Read s.continuation_id s streams
        → IsCreated platform input s
        → Ensures accepts Q (created_pending token s l) streams
    unfolding created_pending ◌>>=◌
    pending-Ensures token s (Lifecycle.pending h) streams p r c = (r, c)
    pending-Ensures token s (Lifecycle.resumed at key payload) streams p r c = tt
    pending-Ensures token s (Lifecycle.cancelled at reason) streams p r c = tt
    pending-Ensures token s (Lifecycle.expired at) streams p r c = tt

    creation-Ensures :
        (id : ContinuationId) (event : ContinuationEvent) (t : ContinuationEnvelope) (token : Text)
        (streams : Streams)
        → reduce_continuation none event ≡ ok t
        → event.continuation_id ≡ id
        → IsCreated platform input t
        → Ensures accepts Q (append_creation id event token) streams
    unfolding append_creation ◌>>=◌
    creation-Ensures id event t token streams e i c =
        append_first accepts Q id t event
          (λ reply. lift reply >>= λ _. lift_domain (reduce_continuation none event) >>= λ s.
            created_pending token s s.lifecycle)
          streams (reduce-Creation event t e) i
          (λ u l r. rw e (pending-Ensures token t t.lifecycle u refl (Read-own id t u r) c))
          (λ x u l. tt)

    -- The envelope of a creation.
    abbrev created_at : ContinuationId → Text → ℕ → ℕ → Text → ContinuationEnvelope
    created_at id correlation_id s t hash = record {
      schema_version = 1;
      continuation_id = id;
      correlation_id = correlation_id;
      version = 1;
      created_at = platform.iso_text s;
      expires_at = platform.iso_text t;
      payload = input.payload;
      metadata = or_default input.metadata Entries.end;
      lifecycle = Lifecycle.pending hash;
    }

    reduce_creation :
        (id : ContinuationId) (correlation_id : Text) (s t : ℕ) (hash : Text)
        → reduce_continuation none (
            creation_event input id correlation_id (platform.iso_text s) (platform.iso_text t) hash)
          ≡ ok (created_at id correlation_id s t hash)
    unfolding reduce_continuation
    reduce_creation id correlation_id s t hash = refl

    until-Ensures :
        (id : ContinuationId) (correlation_id : Text) (d e : Date) (streams : Streams)
        → ((x : Text) → input.continuation_id ≡ some x → id ≡ x)
        → ((x : Text) → input.correlation_id ≡ some x → correlation_id ≡ x)
        → date_le e d ≡ false
        → Ensures accepts Q (create_until platform input id correlation_id d e) streams
    unfolding create_until ◌>>=◌
    until-Ensures id correlation_id d e streams i c late = λ issued.
        printed-Ensures Q d _ streams
          (λ s p m.
            printed-Ensures Q e _ streams
              (λ t q n.
                creation-Ensures id
                  (creation_event input id correlation_id (platform.iso_text s)
                    (platform.iso_text t) issued.token_hash)
                  (created_at id correlation_id s t issued.token_hash) issued.token streams
                  (reduce_creation id correlation_id s t issued.token_hash) refl
                  (record {
                    hash = issued.token_hash;
                    pending = refl;
                    first = refl;
                    payload = refl;
                    identifier = i;
                    correlation = c;
                    expiry = printed_expiry d e s t late p m q n;
                  }))
              tt)
          tt

    checked-Ensures :
        (id : ContinuationId) (correlation_id : Text) (d e : Date) (streams : Streams)
        → ((x : Text) → input.continuation_id ≡ some x → id ≡ x)
        → ((x : Text) → input.correlation_id ≡ some x → correlation_id ≡ x)
        → Ensures accepts Q
            (if date_le e d
              then Program.fail range_error
              else create_until platform input id correlation_id d e)
            streams
    checked-Ensures id correlation_id d e streams i c = elim (Bool-cases (date_le e d)) [
      | inl early ↦ rw early tt
      | inr late ↦ rw late (until-Ensures id correlation_id d e streams i c late)
    ]

    -- Whatever other clients do between its steps, a creation that returns answers with a pending
    -- continuation for its input, which the stream recorded as its first event.
    pub create-Ensures :
        (ttl : ℕ) (streams : Streams) → Ensures accepts Q (create platform ttl input) streams
    unfolding create Chosen ◌>>=◌
    create-Ensures ttl streams = λ d.
        Ensures-bind accepts (Chosen input.continuation_id) Q (or_generated input.continuation_id) _
          streams (or_generated-Ensures input.continuation_id streams)
          (λ id t i.
            Ensures-bind accepts (Chosen input.correlation_id) Q (or_generated input.correlation_id)
              _ t (or_generated-Ensures input.correlation_id t)
              (λ correlation_id u c.
                checked-Ensures id correlation_id d (or_default input.expires_at (date_plus d ttl))
                  u i c)
              (λ e u h. tt))
          (λ e t h. tt)

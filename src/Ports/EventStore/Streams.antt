-- ===== src/Ports/EventStore/Streams.antt =====
-- Streams that only grow, streams that hold lawful histories, and what an append does to them.
use mathlib.Core.List.{append-nil, append_assoc}
use pausemesh.Prelude.{
  ℕ, ◌≤◌, ◌≡◌, refl, sym, ◌∙◌, ap, ◌⊎◌, inl, inr, ◌≢◌, Bool, false, List, [], ◌∷◌, ◌++◌, ok, length,
  length-append, Bool-cases, arith,
}
use pausemesh.Prelude.Text.{text_eq, text_eq_iff, text_eq_refl}
use pausemesh.Domain.Types.{ContinuationId, ContinuationEnvelope, ContinuationStatus, status}
use pausemesh.Domain.Events.{ContinuationEvent}
use pausemesh.Domain.Reducer.Steps.{Creation, Transition}
use pausemesh.Domain.Reducer.Replay.{Closes-terminal, History, opened, closed}
use pausemesh.Ports.EventStore.{Streams, append_events, extend}

abbrev pub Prefix {ℓ} : {A : Type ℓ} → List A → List A → Type ℓ
Prefix {A} xs ys = (zs : List A) × (ys ≡ xs ++ zs)

pub Prefix-refl {ℓ} : {A : Type ℓ} (xs : List A) → Prefix xs xs
Prefix-refl xs = ([], sym (append-nil xs))

pub Prefix-trans {ℓ} : {A : Type ℓ} (xs ys zs : List A) → Prefix xs ys → Prefix ys zs → Prefix xs zs
Prefix-trans xs ys zs (us, p) (vs, q) = (us ++ vs, q ∙ rw (p, append_assoc))

-- A prefix of the same length is the whole.
pub Prefix-full {ℓ} : {A : Type ℓ} (xs ys : List A) → Prefix xs ys → length ys ≡ length xs → ys ≡ xs
Prefix-full xs ys ([], p) e = p ∙ append-nil xs
Prefix-full xs ys (z ∷ zs, p) e = absurd (omega (arith, ap length p, length-append xs (z ∷ zs)))

nil_of_length {ℓ} : {A : Type ℓ} (xs : List A) → length xs ≡ 0 → xs ≡ []
nil_of_length [] e = refl
nil_of_length (x ∷ xs) e = absurd (omega arith)

abbrev pub Grows : Streams → Streams → Type 0
Grows before after = (id : ContinuationId) → Prefix (before id) (after id)

pub Grows-refl : (streams : Streams) → Grows streams streams
Grows-refl streams id = Prefix-refl (streams id)

pub Grows-trans : (r s t : Streams) → Grows r s → Grows s t → Grows r t
Grows-trans r s t g h id = Prefix-trans (r id) (s id) (t id) (g id) (h id)

-- The stream of an identifier is empty, or a lawful history of that identifier.
abbrev pub IsRecorded : ContinuationId → List ContinuationEvent → Type 0
IsRecorded id events =
    (events ≡ []) ⊎ ((s : ContinuationEnvelope) × History events s × (s.continuation_id ≡ id))

abbrev pub IsValid : Streams → Type 0
IsValid streams = (id : ContinuationId) → IsRecorded id (streams id)

-- The effect of a successful append.
pub record Appended (id : ContinuationId) (expected : ℕ) (events : List ContinuationEvent)
    (before after : Streams) : Type 0 where
  pub fenced : length (before id) ≡ expected
  pub extended : after id ≡ before id ++ events
  pub others : (other : ContinuationId) → text_eq other id ≡ false → after other ≡ before other

extend_self :
    (id : ContinuationId) (events : List ContinuationEvent) (before : Streams)
    → extend id events before id ≡ before id ++ events
unfolding extend
extend_self id events before = rw (text_eq_refl id)

extend_other :
    (id other : ContinuationId) (events : List ContinuationEvent) (before : Streams)
    → text_eq other id ≡ false
    → extend id events before other ≡ before other
unfolding extend
extend_other id other events before e = rw e

module _ (accepts : ContinuationEvent → Bool) (id : ContinuationId) (expected : ℕ)
    (events : List ContinuationEvent) (before after : Streams) where
  append_parts :
      append_events accepts id expected events before ≡ ok after
      → (length (before id) ≡ expected) × (extend id events before ≡ after)
  unfolding append_events
  append_parts r = (ground arith, ground arith)

  pub append_events-Appended :
      append_events accepts id expected events before ≡ ok after
      → Appended id expected events before after
  append_events-Appended r =
      let (fenced, same) = append_parts r in
      record {
        fenced = fenced;
        extended = rw (← same) (extend_self id events before);
        others = λ other e. rw (← same) (extend_other id other events before e);
      }

pub Grows-of_Appended :
    {id : ContinuationId} {expected : ℕ} {events : List ContinuationEvent} {before after : Streams}
    → Appended id expected events before after
    → Grows before after
Grows-of_Appended {id} {events} {before} {after} a other = elim (Bool-cases (text_eq other id)) [
  | inl same ↦ let e : other ≡ id = (text_eq_iff other id).0 same in rw e (events, a.extended)
  | inr different ↦ rw (a.others other different) (Prefix-refl (before other))
]

length-History :
    {events : List ContinuationEvent} {s : ContinuationEnvelope}
    → History events s
    → s.version ≡ length events
length-History (opened c) = c.version
length-History (closed c h) = omega (arith, c.version, h.version, h.fence)

-- A history has one event while its state is pending, and two when it is closed.
pub History-length :
    {events : List ContinuationEvent} {s : ContinuationEnvelope}
    → History events s
    → ((length events ≡ 1) × (status s ≡ ContinuationStatus.pending))
      ⊎ ((length events ≡ 2) × (status s ≢ ContinuationStatus.pending))
History-length (opened c) = inl (refl, rw c.lifecycle)
History-length (closed c h) = inr (refl, Closes-terminal h.closes)

two_at_most :
    {events : List ContinuationEvent} {s : ContinuationEnvelope}
    → History events s
    → length events ≤ 2
two_at_most h = ground (arith, History-length h)

pub IsRecorded-length :
    {id : ContinuationId} (events : List ContinuationEvent)
    → IsRecorded id events
    → length events ≤ 2
IsRecorded-length events (inl empty) = rw empty (omega arith)
IsRecorded-length events (inr (s, h, _)) = two_at_most h

-- What a valid store still holds of a closed history is that history.
pub closed_stays :
    {events : List ContinuationEvent} {s : ContinuationEnvelope} (id : ContinuationId)
    (later : List ContinuationEvent)
    → status s ≢ ContinuationStatus.pending
    → History events s
    → Prefix events later
    → IsRecorded id later
    → later ≡ events
closed_stays {events} id later closed_state h (zs, p) r = elim (History-length h) [
  | inl (_, still) ↦ absurd (closed_state still)
  | inr (two, _) ↦
      Prefix-full events later (zs, p)
        (omega (arith, two, IsRecorded-length later r, ap length p, length-append events zs))
]

-- The stream to which a closing event may be appended is the one that was read.
pub open_unchanged :
    {events : List ContinuationEvent} {s : ContinuationEnvelope} (later : List ContinuationEvent)
    → History events s
    → Prefix events later
    → length later ≡ s.version
    → later ≡ events
open_unchanged {events} later h p n = Prefix-full events later p (n ∙ length-History h)

-- A history of a pending state, closed by one more event.
close_history :
    {events : List ContinuationEvent} {s t : ContinuationEnvelope} (event : ContinuationEvent)
    → History events s
    → Transition s event t
    → History (events ++ event ∷ []) t
close_history event (opened c) h = closed c h
close_history event (closed c g) h = absurd (Closes-terminal g.closes h.was_pending)

IsValid_of_extended :
    {id : ContinuationId} {expected : ℕ} {events : List ContinuationEvent} {before after : Streams}
    → Appended id expected events before after
    → IsValid before
    → IsRecorded id (after id)
    → IsValid after
IsValid_of_extended {id} {before} {after} a v r other = elim (Bool-cases (text_eq other id)) [
  | inl same ↦ let e : other ≡ id = (text_eq_iff other id).0 same in rw e r
  | inr different ↦ rw (a.others other different) (v other)
]

-- A closing event that fits what was read keeps the store valid, and the stream replays to its
-- state.
pub append_closing :
    {events : List ContinuationEvent} {s t : ContinuationEnvelope} (id : ContinuationId)
    (event : ContinuationEvent) (before after : Streams)
    → History events s
    → s.continuation_id ≡ id
    → Prefix events (before id)
    → Transition s event t
    → Appended id s.version (event ∷ []) before after
    → IsValid before
    → IsValid after × History (after id) t
append_closing {events} {s} {t} id event before after h i p step a v =
    let unchanged = open_unchanged (before id) h p a.fenced in
    let g : History (after id) t = rw (a.extended, unchanged) (close_history event h step) in
    (IsValid_of_extended a v (inr (t, g, step.request.continuation_id ∙ i)), g)

-- So does a creation.
pub append_creation :
    {t : ContinuationEnvelope} (id : ContinuationId) (event : ContinuationEvent)
    (before after : Streams)
    → Creation event t
    → event.continuation_id ≡ id
    → Appended id 0 (event ∷ []) before after
    → IsValid before
    → IsValid after × History (after id) t
append_creation {t} id event before after c i a v =
    let empty : before id ≡ [] = nil_of_length (before id) a.fenced in
    let g : History (after id) t = rw (a.extended, empty) (opened c) in
    (IsValid_of_extended a v (inr (t, g, c.identity ∙ i)), g)

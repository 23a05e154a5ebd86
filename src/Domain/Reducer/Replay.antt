-- ===== src/Domain/Reducer/Replay.antt =====
-- What a replay of events by domain/reducer.ts establishes.
use pausemesh.Prelude.{◌≡◌, ◌≢◌, ◌↔◌, none, some, List, [], ◌∷◌, ok, >>=-eq-ok, arith}
use pausemesh.Prelude.Text.{Text}
use pausemesh.Domain.Types.{ContinuationEnvelope, ContinuationStatus, Lifecycle, status, status_of}
use pausemesh.Domain.Events.{ContinuationEvent, EventBody}
use pausemesh.Domain.Reducer.{reduce_continuation, replay_from, replay_continuation}
use pausemesh.Domain.Reducer.Steps.{
  Closes, resumes, cancels, expires, Transition, Creation, reduce-Creation, reduce-Transition,
  reduce_of_Creation, reduce_of_Transition,
}

-- The two histories that a stream can have.
pub data History : List ContinuationEvent → ContinuationEnvelope → Type 0 where
  opened : {e : ContinuationEvent} {s : ContinuationEnvelope} → Creation e s → History (e ∷ []) s
  closed :
      {e f : ContinuationEvent} {s t : ContinuationEnvelope}
      → Creation e s
      → Transition s f t
      → History (e ∷ f ∷ []) t

terminal_refuses :
    (s : ContinuationEnvelope) (event : ContinuationEvent)
    → status s ≢ ContinuationStatus.pending
    → (t : ContinuationEnvelope) → reduce_continuation (some s) event ≢ ok t
terminal_refuses s event ne t r = ne (reduce-Transition s event t r).was_pending

pub Closes-terminal :
    {at : Text} {b : EventBody} {l : Lifecycle}
    → Closes at b l
    → status_of l ≢ ContinuationStatus.pending
Closes-terminal resumes = cc
Closes-terminal cancels = cc
Closes-terminal expires = cc

replay_closed :
    (e f : ContinuationEvent) (rest : List ContinuationEvent) (s t u : ContinuationEnvelope)
    → Creation e s
    → Transition s f t
    → replay_from (some t) rest ≡ ok (some u)
    → History (e ∷ f ∷ rest) u
unfolding replay_from
replay_closed e f [] s t u c h r = let same : t ≡ u = ground arith in rw (← same) (closed c h)
replay_closed e f (g ∷ rest) s t u c h r =
    let (v, step, _) =
      >>=-eq-ok (reduce_continuation (some t) g) (λ next. replay_from (some next) rest) r in
    absurd (terminal_refuses t g (Closes-terminal h.closes) v step)

replay_opened :
    (e : ContinuationEvent) (rest : List ContinuationEvent) (s u : ContinuationEnvelope)
    → Creation e s
    → replay_from (some s) rest ≡ ok (some u)
    → History (e ∷ rest) u
unfolding replay_from
replay_opened e [] s u c r = let same : s ≡ u = ground arith in rw (← same) (opened c)
replay_opened e (f ∷ rest) s u c r =
    let (t, step, r') =
      >>=-eq-ok (reduce_continuation (some s) f) (λ next. replay_from (some next) rest) r in
    replay_closed e f rest s t u c (reduce-Transition s f t step) r'

pub replay-History :
    (events : List ContinuationEvent) (s : ContinuationEnvelope)
    → replay_continuation events ≡ ok (some s)
    → History events s
unfolding replay_continuation
replay-History [] s r = ground arith
replay-History (e ∷ rest) u r =
    let (s, step, r') =
      >>=-eq-ok (reduce_continuation none e) (λ next. replay_from (some next) rest) r in
    replay_opened e rest s u (reduce-Creation e s step) r'

pub replay_of_History :
    {events : List ContinuationEvent} {s : ContinuationEnvelope}
    → History events s
    → replay_continuation events ≡ ok (some s)
unfolding replay_continuation
replay_of_History (opened {e} {s} c) = rw (reduce_of_Creation e s c)
replay_of_History (closed {e} {f} {s} {t} c h) =
    rw (reduce_of_Creation e s c) (rw (reduce_of_Transition s f t h))

-- A replay yields a state exactly for the events of a creation, or of a creation and one closing
-- transition, that fit one another; the state is then the one that they determine.
pub replay_continuation_iff :
    (events : List ContinuationEvent) (s : ContinuationEnvelope)
    → (replay_continuation events ≡ ok (some s)) ↔ History events s
replay_continuation_iff events s = (replay-History events s, replay_of_History)

-- ===== src/Service/Interleaving.antt =====
-- Many clients of one store: every entry of a schedule lets one client take one step, with the
-- clock, the issued token, the generated identifier and the fault of that step.
use pausemesh.Prelude.{
  ℕ, ◌≡◌, refl, Bool, Option, none, some, List, [], ◌∷◌, Result, ok, err, get_elem?, set, All,
  All-set, All-get_elem?,
}
use pausemesh.Prelude.Text.{Text}
use pausemesh.Domain.Types.{ContinuationId}
use pausemesh.Domain.Events.{ContinuationEvent}
use pausemesh.Ports.Failure.{Failure, storage_error}
use pausemesh.Ports.Platform.{Date}
use pausemesh.Ports.Observer.{IssuedResumeToken}
use pausemesh.Ports.EventStore.{Streams, append_events}
use pausemesh.Ports.EventStore.Streams.{
  Grows-refl, Grows-of_Appended, append_events-Appended, IsValid,
}
use pausemesh.Service.Program.{Program, done, fail, load, append, now, issue, generate_id, observe}
use pausemesh.Service.Ensures.{Later, Post, IsStable, Ensures, Ensures-Later}

-- A call of the store may fail before it has an effect, or its reply may be lost after it.
pub data Fault : Type 0 where
  no_fault request_lost reply_lost : Fault

pub record Input : Type 0 where
  pub time : Date
  pub token : IssuedResumeToken
  pub fresh_id : Text
  pub fault : Fault

module _ (accepts : ContinuationEvent → Bool) where
  loaded : Fault → List ContinuationEvent → Result Failure (List ContinuationEvent)
  loaded no_fault events = ok events
  loaded _ events = err storage_error

  -- The reply to an append and the streams after it.
  acknowledged : Fault → Streams → Result Failure Streams → Result Failure (Unit {0}) × Streams
  acknowledged no_fault before (ok after) = (ok tt, after)
  acknowledged no_fault before (err e) = (err e, before)
  acknowledged request_lost before reply = (err storage_error, before)
  acknowledged reply_lost before (ok after) = (err storage_error, after)
  acknowledged reply_lost before (err e) = (err storage_error, before)

  -- One step of one client: up to its next call of a port.
  unfoldable pub step : {A : Type 0} → Input → Program A → Streams → Program A × Streams
  unfolding loaded acknowledged
  step input (done a) s = (done a, s)
  step input (fail e) s = (fail e, s)
  step input (load id k) s = (k (loaded input.fault (s id)), s)
  step input (append id n es k) s =
      let (reply, s') = acknowledged input.fault s (append_events accepts id n es s) in
      (k reply, s')
  step input (now k) s = (k input.time, s)
  step input (issue k) s = (k input.token, s)
  step input (generate_id k) s = (k input.fresh_id, s)
  step input (observe o k) s = (k, s)

  module _ {A : Type 0} (Q : Post A) where
    load_step :
        (fault : Fault) (s : Streams) (id : ContinuationId)
        (k : Result Failure (List ContinuationEvent) → Program A)
        → IsValid s
        → Ensures accepts Q (load id k) s
        → Ensures accepts Q (k (loaded fault (s id))) s
    unfolding loaded
    load_step no_fault s id k v h = (h s (Grows-refl s, v)).0
    load_step request_lost s id k v h = (h s (Grows-refl s, v)).1
    load_step reply_lost s id k v h = (h s (Grows-refl s, v)).1

    append_step :
        (fault : Fault) (s : Streams) (id : ContinuationId) (n : ℕ) (es : List ContinuationEvent)
        (k : Result Failure (Unit {0}) → Program A) (r : Result Failure Streams)
        → append_events accepts id n es s ≡ r
        → IsValid s
        → Ensures accepts Q (append id n es k) s
        → let (reply, s') = acknowledged fault s r in Later s s' × Ensures accepts Q (k reply) s'
    unfolding acknowledged
    append_step no_fault s id n es k (ok u) e v h =
        let (w, x, y) = (h s (Grows-refl s, v)).0 u e in
        ((Grows-of_Appended (append_events-Appended accepts id n es s u e), w), x)
    append_step no_fault s id n es k (err x) e v h =
        ((Grows-refl s, v), (h s (Grows-refl s, v)).1 x e)
    append_step request_lost s id n es k r e v h = ((Grows-refl s, v), (h s (Grows-refl s, v)).2)
    append_step reply_lost s id n es k (ok u) e v h =
        let (w, x, y) = (h s (Grows-refl s, v)).0 u e in
        ((Grows-of_Appended (append_events-Appended accepts id n es s u e), w), y)
    append_step reply_lost s id n es k (err x) e v h =
        ((Grows-refl s, v), (h s (Grows-refl s, v)).2)

    pub step-Ensures :
        (input : Input) (p : Program A) (s : Streams)
        → IsValid s
        → Ensures accepts Q p s
        → Later s (step input p s).1 × Ensures accepts Q (step input p s).0 (step input p s).1
    unfolding step
    step-Ensures input (done a) s v h = ((Grows-refl s, v), h)
    step-Ensures input (fail e) s v h = ((Grows-refl s, v), h)
    step-Ensures input (load id k) s v h = ((Grows-refl s, v), load_step input.fault s id k v h)
    step-Ensures input (append id n es k) s v h =
        append_step input.fault s id n es k (append_events accepts id n es s) refl v h
    step-Ensures input (now k) s v h = ((Grows-refl s, v), h input.time)
    step-Ensures input (issue k) s v h = ((Grows-refl s, v), h input.token)
    step-Ensures input (generate_id k) s v h = ((Grows-refl s, v), h input.fresh_id)
    step-Ensures input (observe o k) s v h = ((Grows-refl s, v), h)

-- A call, and what is left to run of it.
pub record Client (C A : Type 0) : Type 0 where
  pub call : C
  pub program : Program A

pub record Pool (C A : Type 0) : Type 0 where
  pub clients : List (Client C A)
  pub streams : Streams

module _ (accepts : ContinuationEvent → Bool) {C A : Type 0} where
  unfoldable pub advance : Input → Pool C A → ℕ → Option (Client C A) → Pool C A
  advance input pool i none = pool
  advance input pool i (some client) =
      let (program, streams) = step accepts input client.program pool.streams in
      record {
        clients = set pool.clients i (record client { program = program });
        streams = streams;
      }

  -- One turn of the client at the index; an index out of range is an idle turn.
  unfoldable pub turn : ℕ → Input → Pool C A → Pool C A
  unfolding advance
  turn i input pool = advance input pool i (get_elem? pool.clients i)

  unfoldable pub run : List (ℕ × Input) → Pool C A → Pool C A
  run [] pool = pool
  run ((i, input) ∷ schedule) pool = run schedule (turn i input pool)

  module _ (Promise : C → Post A) (stable : (call : C) → IsStable (Promise call)) where
    abbrev pub IsOnTrack : Streams → Client C A → Type 0
    IsOnTrack s client = Ensures accepts (Promise client.call) client.program s

    abbrev pub IsSafe : Pool C A → Type 0
    IsSafe pool = IsValid pool.streams × All (IsOnTrack pool.streams) pool.clients

    All-Later :
        (clients : List (Client C A)) (s t : Streams)
        → Later s t
        → All (IsOnTrack s) clients
        → All (IsOnTrack t) clients
    All-Later [] s t l h = tt
    All-Later (c ∷ clients) s t l (h, hs) = (
      Ensures-Later accepts (Promise c.call) (stable c.call) c.program s t h l,
      All-Later clients s t l hs,
    )

    advance-IsSafe :
        (input : Input) (pool : Pool C A) (i : ℕ) (o : Option (Client C A))
        → get_elem? pool.clients i ≡ o
        → IsSafe pool
        → IsSafe (advance input pool i o)
    unfolding advance
    advance-IsSafe input pool i none e h = h
    advance-IsSafe input pool i (some c) e (v, h) =
        let (l, on_track) =
          step-Ensures accepts (Promise c.call) input c.program pool.streams v
            (All-get_elem? (IsOnTrack pool.streams) pool.clients i h e) in
        (
          l.1,
          All-set (IsOnTrack _) pool.clients i _ (All-Later pool.clients pool.streams _ l h)
              on_track,
        )

    pub run-IsSafe :
        (schedule : List (ℕ × Input)) (pool : Pool C A) → IsSafe pool → IsSafe (run schedule pool)
    unfolding run turn
    run-IsSafe [] pool h = h
    run-IsSafe ((i, input) ∷ schedule) pool h =
        run-IsSafe schedule (turn i input pool)
          (advance-IsSafe input pool i (get_elem? pool.clients i) refl h)

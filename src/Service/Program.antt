-- ===== src/Service/Program.antt =====
-- The asynchronous methods of the service as programs: every `await` of a port is one step, between
-- which other clients of the same store may run.
use pausemesh.Prelude.{ℕ, none, some, List, Result, ok, err, if◌then◌else◌, leb}
use pausemesh.Prelude.Text.{Text}
use pausemesh.Domain.Types.{ContinuationId}
use pausemesh.Domain.Events.{ContinuationEvent}
use pausemesh.Domain.Errors.{PauseMeshError}
use pausemesh.Ports.Failure.{Failure, domain, range_error}
use pausemesh.Ports.Platform.{Date, Platform, max_time}
use pausemesh.Ports.Observer.{ContinuationObservation, IssuedResumeToken}

pub data Program (A : Type 0) : Type 0 where
  done : A → Program A
  fail : Failure → Program A
  load : ContinuationId → (Result Failure (List ContinuationEvent) → Program A) → Program A
  append :
      ContinuationId
      → ℕ
      → List ContinuationEvent
      → (Result Failure (Unit {0}) → Program A)
      → Program A
  now : (Date → Program A) → Program A
  issue : (IssuedResumeToken → Program A) → Program A
  generate_id : (Text → Program A) → Program A
  observe : ContinuationObservation → Program A → Program A

infixl 5 ◌>>=◌ ◌>>◌
unfoldable pub ◌>>=◌ : {A B : Type 0} → Program A → (A → Program B) → Program B
done a >>= f = f a
fail e >>= f = fail e
load id k >>= f = load id (λ r. k r >>= f)
append id n es k >>= f = append id n es (λ r. k r >>= f)
now k >>= f = now (λ t. k t >>= f)
issue k >>= f = issue (λ t. k t >>= f)
generate_id k >>= f = generate_id (λ t. k t >>= f)
observe o k >>= f = observe o (k >>= f)

abbrev pub ◌>>◌ : {B : Type 0} → Program (Unit {0}) → Program B → Program B
m >> k = m >>= λ _. k

-- `try { m } catch (error) { handler(error) }`
unfoldable pub attempt : {A : Type 0} → Program A → (Failure → Program A) → Program A
attempt (done a) h = done a
attempt (fail e) h = h e
attempt (load id k) h = load id (λ r. attempt (k r) h)
attempt (append id n es k) h = append id n es (λ r. attempt (k r) h)
attempt (now k) h = now (λ t. attempt (k t) h)
attempt (issue k) h = issue (λ t. attempt (k t) h)
attempt (generate_id k) h = generate_id (λ t. attempt (k t) h)
attempt (observe o k) h = observe o (attempt k h)

abbrev pub lift : {A : Type 0} → Result Failure A → Program A
lift (ok a) = done a
lift (err e) = fail e

-- The calls of the ports, a rejection thrown.
abbrev pub load_events : ContinuationId → Program (List ContinuationEvent)
load_events id = load id lift

abbrev pub append_or_fail : ContinuationId → ℕ → List ContinuationEvent → Program (Unit {0})
append_or_fail id version events = append id version events lift

abbrev pub read_clock : Program Date
read_clock = now done

abbrev pub notify : ContinuationObservation → Program (Unit {0})
notify observation = observe observation (done tt)

-- A domain function that throws.
abbrev pub lift_domain : {A : Type 0} → Result PauseMeshError A → Program A
lift_domain (ok a) = done a
lift_domain (err e) = fail (domain e)

-- `date.toISOString()`
abbrev pub iso_string : Platform → Date → Program Text
iso_string platform none = fail range_error
iso_string platform (some t) =
    if leb t max_time then done (platform.iso_text t) else fail range_error

-- ===== src/Service/Bounded.antt =====
-- Programs that end after a bounded number of their own steps, whatever the ports reply.
use pausemesh.Prelude.{Bool, ℕ, zero, suc, ◌+◌, ◌≤◌, arith}
use pausemesh.Domain.Events.{ContinuationEvent}
use pausemesh.Ports.Failure.{Failure}
use pausemesh.Ports.EventStore.{Streams}
use pausemesh.Service.Program.{
  Program, done, fail, load, append, now, issue, generate_id, observe, ◌>>=◌, attempt,
}
use pausemesh.Service.Interleaving.{Input, step}

-- There is a step left, and `P` of the number of steps left after it.
abbrev pub Next : ℕ → (ℕ → Type 0) → Type 0
Next zero P = ⊥
Next (suc n) P = P n

Next-map :
    {P Q : ℕ → Type 0} (n more m : ℕ)
    → n + more ≤ m
    → ((a c : ℕ) → a + more ≤ c → P a → Q c)
    → Next n P
    → Next m Q
Next-map zero more m l f h = absurd h
Next-map (suc n) more zero l f h = absurd (omega (arith, l))
Next-map (suc n) more (suc m) l f h = f n m (omega (arith, l)) h

-- The program ends within this number of its steps.
abbrev pub Within : {A : Type 0} → Program A → ℕ → Type 0
Within (done a) n = Unit
Within (fail e) n = Unit
Within (load id k) n = Next n (λ m. (r : _) → Within (k r) m)
Within (append id v es k) n = Next n (λ m. (r : _) → Within (k r) m)
Within (now k) n = Next n (λ m. (r : _) → Within (k r) m)
Within (issue k) n = Next n (λ m. (r : _) → Within (k r) m)
Within (generate_id k) n = Next n (λ m. (r : _) → Within (k r) m)
Within (observe o k) n = Next n (λ m. Within k m)

pub Within-more : {A : Type 0} (p : Program A) (n m : ℕ) → n + 0 ≤ m → Within p n → Within p m
Within-more (done a) n m l h = tt
Within-more (fail e) n m l h = tt
Within-more (load id k) n m l h = Next-map n 0 m l (λ a c l h r. Within-more (k r) a c l (h r)) h
Within-more (append id v es k) n m l h =
    Next-map n 0 m l (λ a c l h r. Within-more (k r) a c l (h r)) h
Within-more (now k) n m l h = Next-map n 0 m l (λ a c l h r. Within-more (k r) a c l (h r)) h
Within-more (issue k) n m l h = Next-map n 0 m l (λ a c l h r. Within-more (k r) a c l (h r)) h
Within-more (generate_id k) n m l h =
    Next-map n 0 m l (λ a c l h r. Within-more (k r) a c l (h r)) h
Within-more (observe o k) n m l h = Next-map n 0 m l (λ a c l h. Within-more k a c l h) h

module _ {A B : Type 0} (f : A → Program B) (more : ℕ) (g : (a : A) → Within (f a) more) where
  pub Within-bind : (p : Program A) (n m : ℕ) → n + more ≤ m → Within p n → Within (p >>= f) m
  unfolding ◌>>=◌
  Within-bind (done a) n m l h = Within-more (f a) more m (omega (arith, l)) (g a)
  Within-bind (fail e) n m l h = tt
  Within-bind (load id k) n m l h =
      Next-map n more m l (λ a c l h r. Within-bind (k r) a c l (h r)) h
  Within-bind (append id v es k) n m l h =
      Next-map n more m l (λ a c l h r. Within-bind (k r) a c l (h r)) h
  Within-bind (now k) n m l h = Next-map n more m l (λ a c l h r. Within-bind (k r) a c l (h r)) h
  Within-bind (issue k) n m l h = Next-map n more m l (λ a c l h r. Within-bind (k r) a c l (h r)) h
  Within-bind (generate_id k) n m l h =
      Next-map n more m l (λ a c l h r. Within-bind (k r) a c l (h r)) h
  Within-bind (observe o k) n m l h = Next-map n more m l (λ a c l h. Within-bind k a c l h) h

module _ {A : Type 0} (f : Failure → Program A) (more : ℕ)
    (g : (e : Failure) → Within (f e) more) where
  pub Within-attempt :
      (p : Program A) (n m : ℕ) → n + more ≤ m → Within p n → Within (attempt p f) m
  unfolding attempt
  Within-attempt (done a) n m l h = tt
  Within-attempt (fail e) n m l h = Within-more (f e) more m (omega (arith, l)) (g e)
  Within-attempt (load id k) n m l h =
      Next-map n more m l (λ a c l h r. Within-attempt (k r) a c l (h r)) h
  Within-attempt (append id v es k) n m l h =
      Next-map n more m l (λ a c l h r. Within-attempt (k r) a c l (h r)) h
  Within-attempt (now k) n m l h =
      Next-map n more m l (λ a c l h r. Within-attempt (k r) a c l (h r)) h
  Within-attempt (issue k) n m l h =
      Next-map n more m l (λ a c l h r. Within-attempt (k r) a c l (h r)) h
  Within-attempt (generate_id k) n m l h =
      Next-map n more m l (λ a c l h r. Within-attempt (k r) a c l (h r)) h
  Within-attempt (observe o k) n m l h = Next-map n more m l (λ a c l h. Within-attempt k a c l h) h

module _ (accepts : ContinuationEvent → Bool) where
  pub step-Within :
      {A : Type 0} (input : Input) (p : Program A) (s : Streams) (n : ℕ)
      → Within p (suc n)
      → Within (step accepts input p s).0 n
  unfolding step
  step-Within input (done a) s n h = tt
  step-Within input (fail e) s n h = tt
  step-Within input (load id k) s n h = h _
  step-Within input (append id v es k) s n h = h _
  step-Within input (now k) s n h = h _
  step-Within input (issue k) s n h = h _
  step-Within input (generate_id k) s n h = h _
  step-Within input (observe o k) s n h = h

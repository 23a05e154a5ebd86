-- ===== src/Service/Progress.antt =====
-- Every call that gets its turns returns or throws.
use pausemesh.Prelude.{
  ℕ, suc, ◌+◌, ◌-◌, ◌≤◌, ◌≡◌, ◌≢◌, refl, sym, ◌∙◌, Bool, Option, none, some, List, [], ◌∷◌, ◌⊎◌,
  inl, inr, Bool-cases, arith, ◌==◌, ==_iff, if◌then◌else◌, get_elem?, get_elem?-set,
  get_elem?-set_other, get_elem?-map,
}
use pausemesh.Domain.Events.{ContinuationEvent}
use pausemesh.Ports.Failure.{Failure}
use pausemesh.Ports.Platform.{Platform}
use pausemesh.Ports.EventStore.{Streams}
use pausemesh.Service.Program.{Program, done, fail}
use pausemesh.Service.Interleaving.{Input, Client, Pool, step, advance, turn, run}
use pausemesh.Service.Bounded.{Within, Within-more, step-Within}
use pausemesh.Service.Calls.{Call, Reply, serve}
use pausemesh.Service.Ending.Calls.{serve-Within}
use pausemesh.Service.Exclusive.{client, started}

-- The turns of a client in a schedule.
abbrev pub turns : ℕ → List (ℕ × Input) → ℕ
turns i [] = 0
turns i ((j, input) ∷ schedule) = let rest = turns i schedule in if j == i then suc rest else rest

-- The program has returned or thrown.
abbrev pub HasEnded : {A : Type 0} → Program A → Type 0
HasEnded {A} p = ((a : A) × (p ≡ done a)) ⊎ ((e : Failure) × (p ≡ fail e))

ended_of_Within : {A : Type 0} (p : Program A) → Within p 0 → HasEnded p
ended_of_Within (done a) h = inl (a, refl)
ended_of_Within (fail e) h = inr (e, refl)
ended_of_Within (Program.load id k) h = absurd h
ended_of_Within (Program.append id v es k) h = absurd h
ended_of_Within (Program.now k) h = absurd h
ended_of_Within (Program.issue k) h = absurd h
ended_of_Within (Program.generate_id k) h = absurd h
ended_of_Within (Program.observe o k) h = absurd h

module _ (accepts : ContinuationEvent → Bool) {C A : Type 0} (i : ℕ) (call : C) where
  -- The client has at most `n` steps left.
  abbrev HasLeft : ℕ → Pool C A → Type 0
  HasLeft n pool =
      (p : Program A) × (get_elem? pool.clients i ≡ some (record { call = call; program = p }))
      × Within p n

  own_turn :
      (input : Input) (pool : Pool C A) (n : ℕ)
      → HasLeft n pool
      → HasLeft (n - 1) (turn accepts i input pool)
  unfolding turn advance
  own_turn input pool n (p, e, h) = rw e (
    (step accepts input p pool.streams).0,
    get_elem?-set pool.clients i _ e,
    step-Within accepts input p pool.streams (n - 1)
        (Within-more p n (suc (n - 1)) (omega arith) h),
  )

  others_turn :
      (j : ℕ) (input : Input) (pool : Pool C A) (n : ℕ)
      → i ≢ j
      → HasLeft n pool
      → HasLeft n (turn accepts j input pool)
  unfolding turn advance
  others_turn j input pool n ne (p, e, h) = after (get_elem? pool.clients j)
    where
      after : (o : Option (Client C A)) → HasLeft n (advance accepts input pool j o)
      after none = (p, e, h)
      after (some c) = (p, get_elem?-set_other pool.clients i j _ ne ∙ e, h)

  HasLeft-more : (n m : ℕ) (pool : Pool C A) → n + 0 ≤ m → HasLeft n pool → HasLeft m pool
  HasLeft-more n m pool l (p, e, h) = (p, e, Within-more p n m l h)

  run-HasLeft :
      (schedule : List (ℕ × Input)) (pool : Pool C A) (n : ℕ)
      → HasLeft n pool
      → HasLeft (n - turns i schedule) (run accepts schedule pool)
  unfolding run
  run-HasLeft [] pool n (p, e, h) = (p, e, Within-more p n (n - 0) (omega arith) h)
  run-HasLeft ((j, input) ∷ schedule) pool n left = elim (Bool-cases (j == i)) [
    | inl own ↦ rw own (
        HasLeft-more (n - 1 - turns i schedule) (n - suc (turns i schedule))
          (run accepts schedule (turn accepts j input pool)) (omega arith)
          (run-HasLeft schedule (turn accepts j input pool) (n - 1)
            (rw ((==_iff j i).0 own) (own_turn input pool n left))))
    | inr other ↦ rw other (
        run-HasLeft schedule (turn accepts j input pool) n
          (others_turn j input pool n (λ e. cc (other, (==_iff j i).1 (sym e))) left))
  ]

module _ (platform : Platform) (ttl : ℕ) (accepts : ContinuationEvent → Bool) where
  ended :
      (pool : Pool Call Reply) (i : ℕ) (call : Call)
      → HasLeft accepts i call 0 pool
      → (p : Program Reply) × (get_elem? pool.clients i
          ≡ some (record { call = call; program = p }))
        × HasEnded p
  ended pool i call (p, e, h) = (p, e, ended_of_Within p h)

  -- Every call ends: under every schedule that gives it twelve turns, whatever the turns and the
  -- calls of the other clients, the clock and the faults of the store, it has returned or thrown.
  pub run-HasEnded :
      (calls : List Call) (schedule : List (ℕ × Input)) (streams : Streams) (i : ℕ) (call : Call)
      → get_elem? calls i ≡ some call
      → 12 ≤ turns i schedule
      → (p : Program Reply) × (get_elem?
            (run accepts schedule (started platform ttl accepts calls streams)).clients
            i
          ≡ some (record { call = call; program = p }))
        × HasEnded p
  run-HasEnded calls schedule streams i call e enough =
      ended (run accepts schedule (started platform ttl accepts calls streams)) i call (
        HasLeft-more accepts i call (12 - turns i schedule) 0
          (run accepts schedule (started platform ttl accepts calls streams))
          (omega (arith, enough))
          (run-HasLeft accepts i call schedule (started platform ttl accepts calls streams) 12 (
            serve platform ttl call,
            get_elem?-map (client platform ttl accepts) calls i e,
            serve-Within platform ttl call,
          )))

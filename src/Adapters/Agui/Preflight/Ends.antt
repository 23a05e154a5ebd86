-- ===== src/Adapters/Agui/Preflight/Ends.antt =====
-- The traversal ends within twice as many rounds as there may be nodes.
use pausemesh.Prelude.{
  ℕ, zero, suc, ◌+◌, ◌-◌, ◌*◌, ◌≤◌, ◌<◌, ◌≡◌, refl, Bool, some, List, [], ◌∷◌, Bool-cases, inl, inr,
  arith, ◌⊎◌,
}
use pausemesh.Adapters.Agui.Preflight.{
  Value, primitive, object, Heap, AguiInputLimits, AguiInputFrame, visit, leave, Traversal, Round,
  answer, continue, visits, enter, round, traverse, start, initial, passes_input_preflight,
}
use pausemesh.Adapters.Agui.Preflight.Unfolding.{exceeds, within_limits}

leaves : List AguiInputFrame → ℕ
leaves [] = 0
leaves (visit v depth ∷ stack) = leaves stack
leaves (leave a ∷ stack) = suc (leaves stack)

leaves-visits :
    (depth : ℕ) (vs : List Value) (stack : List AguiInputFrame)
    → leaves (visits depth vs stack) ≡ leaves stack
unfolding leaves visits
leaves-visits depth [] stack = refl
leaves-visits depth (v ∷ vs) stack = leaves-visits depth vs stack

leaves-start :
    (vs : List Value) (stack : List AguiInputFrame) → leaves (start vs stack) ≡ leaves stack
unfolding leaves start
leaves-start [] stack = refl
leaves-start (v ∷ vs) stack = leaves-start vs (visit v 0 ∷ stack)

pub Round-cases : (r : Round) → ((b : Bool) × (r ≡ answer b)) ⊎ ((t : Traversal) × (r ≡ continue t))
Round-cases (answer b) = inl (b, refl)
Round-cases (continue t) = inr (t, refl)

module _ (heap : Heap) (limits : AguiInputLimits) where
  -- The rounds that are left at most.
  abbrev work : ℕ → List AguiInputFrame → ℕ
  work visited stack = 2 * (limits.max_input_nodes - visited) + leaves stack

  enter-leaves :
      (v : Value) (depth : ℕ) (t next : Traversal)
      → enter heap limits v depth t ≡ continue next
      → (next.visited_nodes ≡ t.visited_nodes) × (leaves next.stack ≤ suc (leaves t.stack))
  unfolding enter leaves
  enter-leaves (primitive p) depth t next h = ground arith
  enter-leaves (object a) depth t next h =
      ground (arith, leaves-visits (suc depth) (heap a) (leave a ∷ t.stack))

  round_falls :
      (stack : List AguiInputFrame) (t next : Traversal)
      → round heap limits stack t ≡ continue next
      → work next.visited_nodes next.stack < work t.visited_nodes stack
  unfolding round leaves
  round_falls [] t next h = absurd (cc h)
  round_falls (leave a ∷ rest) t next h = ground arith
  round_falls (visit v depth ∷ rest) t next h =
      elim (Bool-cases (exceeds limits (suc t.visited_nodes) depth)) [
        | inl over ↦ absurd (cc (rw over at h))
        | inr within ↦
            let entered = enter-leaves v depth _ next (rw within at h) in
            omega (arith, entered, within_limits limits (suc t.visited_nodes) depth within)
      ]

  traverse_ends :
      (fuel : ℕ) (t : Traversal)
      → work t.visited_nodes t.stack < fuel
      → (b : Bool) × (traverse heap limits fuel t ≡ some b)
  unfolding traverse
  traverse_ends zero t h = absurd (omega arith)
  traverse_ends (suc fuel) t h = elim (Round-cases (round heap limits t.stack t)) [
    | inl (b, e) ↦ (b, rw (e, traverse) refl)
    | inr (next, e) ↦
        let falls = round_falls t.stack t next e in
        let (b, ends) = traverse_ends fuel next (omega arith) in (b, rw (e, traverse) ends)
  ]

  -- The traversal of values that may share objects and contain themselves ends, with an answer.
  pub passes_input_preflight_ends :
      (values : List Value) → (b : Bool) × (passes_input_preflight heap limits values ≡ some b)
  unfolding passes_input_preflight leaves
  passes_input_preflight_ends values =
      traverse_ends (suc (2 * limits.max_input_nodes)) (initial values)
        (omega (arith, leaves-start values []))

-- ===== src/Adapters/Agui/Preflight/Sound.antt =====
-- The values that pass unfold to trees within the limits.
use pausemesh.Prelude.{
  ℕ, zero, suc, ◌+◌, ◌-◌, ◌≤◌, ◌≡◌, refl, true, false, some, List, [], ◌∷◌, length, ltb, subst,
  Bool-cases, inl, inr, arith,
}
use pausemesh.Adapters.Agui.Preflight.{
  Primitive, primitive, object, Heap, AguiInputLimits, AguiInputFrame, visit, leave, Traversal, has,
  delete, visits, enter, round, traverse,
}
use pausemesh.Adapters.Agui.Preflight.Unfolding.{
  leaf, node, Clear, visits-Clear, exceeds, within_limits, delete_added,
}

abbrev pub at : List AguiInputFrame → List ℕ → ℕ → ℕ → Traversal
at stack path visited pending = record {
  stack = stack;
  active_path = path;
  visited_nodes = visited;
  pending_nodes = pending;
}

module _ (heap : Heap) (limits : AguiInputLimits) where
  abbrev IsClear : List AguiInputFrame → List ℕ → ℕ → Type 0
  IsClear stack path visited =
      (n : ℕ) × Clear heap limits path stack n × (visited + n ≤ limits.max_input_nodes)

  -- A value within the limits, before the frames that follow it.
  primitive_first :
      (p : Primitive) (depth : ℕ) (rest : List AguiInputFrame) (path : List ℕ) (visited : ℕ)
      → depth ≤ limits.max_input_depth
      → IsClear rest path (suc visited)
      → IsClear (visit (primitive p) depth ∷ rest) path visited
  unfolding Clear
  primitive_first p depth rest path visited h (n, c, bound) =
      (suc n, (1, n, leaf h, c, omega arith), omega arith)

  object_first :
      (a depth : ℕ) (rest : List AguiInputFrame) (path : List ℕ) (visited : ℕ)
      → depth ≤ limits.max_input_depth
      → has a path ≡ false
      → IsClear (visits (suc depth) (heap a) (leave a ∷ rest)) (a ∷ path) (suc visited)
      → IsClear (visit (object a) depth ∷ rest) path visited
  unfolding Clear
  object_first a depth rest path visited h fresh (n, c, bound) =
      let (m, k, all, left, e) = visits-Clear heap limits (heap a) (leave a ∷ rest) c in
      let left' = subst (λ p. Clear heap limits p rest k) (delete_added a path) left in
      (suc n, (suc m, k, node a h fresh all, left', omega arith), omega arith)

  pub traverse_sound :
      (fuel : ℕ) (stack : List AguiInputFrame) (path : List ℕ) (visited pending : ℕ)
      → visited ≤ limits.max_input_nodes
      → traverse heap limits fuel (at stack path visited pending) ≡ some true
      → IsClear stack path visited
  unfolding traverse round enter Clear
  traverse_sound zero stack path visited pending v h = absurd (cc h)
  traverse_sound (suc fuel) [] path visited pending v h = (0, refl, omega arith)
  traverse_sound (suc fuel) (leave a ∷ rest) path visited pending v h =
      traverse_sound fuel rest (delete a path) visited pending v h
  traverse_sound (suc fuel) (visit (primitive p) depth ∷ rest) path visited pending v h =
      elim (Bool-cases (exceeds limits (suc visited) depth)) [
        | inl over ↦ absurd (cc (rw (over, traverse) at h))
        | inr within ↦
            let (nodes, deep) = within_limits limits (suc visited) depth within in
            primitive_first p depth rest path visited deep (
              traverse_sound fuel rest path (suc visited) (pending - 1) nodes
                (rw (within, traverse) at h))
      ]
  traverse_sound (suc fuel) (visit (object a) depth ∷ rest) path visited pending v h =
      elim (Bool-cases (exceeds limits (suc visited) depth)) [
        | inl over ↦ absurd (cc (rw (over, traverse) at h))
        | inr within ↦ elim (Bool-cases (has a path)) [
          | inl cycle ↦ absurd (cc (rw (within, cycle, traverse) at h))
          | inr fresh ↦
              elim (Bool-cases
                (ltb limits.max_input_nodes (suc visited + (pending - 1) + length (heap a)))) [
                  | inl many ↦ absurd (cc (rw (within, fresh, many, traverse) at h))
                  | inr few ↦
                      let (nodes, deep) = within_limits limits (suc visited) depth within in
                      object_first a depth rest path visited deep fresh (
                        traverse_sound fuel (visits (suc depth) (heap a) (leave a ∷ rest))
                          (a ∷ path) (suc visited) (pending - 1 + length (heap a)) nodes
                          (rw (within, fresh, few, traverse) at h))
                ]
        ]
      ]

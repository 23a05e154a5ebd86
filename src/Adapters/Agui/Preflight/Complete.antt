-- ===== src/Adapters/Agui/Preflight/Complete.antt =====
-- Values that unfold within the limits pass, and no others.
use pausemesh.Prelude.{
  ℕ, zero, suc, ◌+◌, ◌-◌, ◌*◌, ◌≤◌, ◌≡◌, refl, Bool, true, false, some, List, [], ◌∷◌, length, ltb,
  subst, sym, ◌↔◌, arith,
}
use pausemesh.Adapters.Agui.Preflight.{
  Value, Heap, AguiInputLimits, AguiInputFrame, visit, leave, delete, visits, enter, round,
  traverse, start, passes_input_preflight,
}
use pausemesh.Adapters.Agui.Preflight.Unfolding.{
  leaf, node, UnfoldsAll, no_values, values, UnfoldsAll-length, Clear, Clear-visits, visit_count,
  visit_count-visits, visit_count-bound, not_exceeding, delete_added,
}
use pausemesh.Adapters.Agui.Preflight.Sound.{at, traverse_sound}
use pausemesh.Adapters.Agui.Preflight.Ends.{passes_input_preflight_ends}

module _ (heap : Heap) (limits : AguiInputLimits) where
  traverse_complete :
      (fuel : ℕ) (stack : List AguiInputFrame) (path : List ℕ) (visited pending n : ℕ) (b : Bool)
      → Clear heap limits path stack n
      → visited + n ≤ limits.max_input_nodes
      → pending ≡ visit_count stack
      → traverse heap limits fuel (at stack path visited pending) ≡ some b
      → b ≡ true
  unfolding traverse round enter Clear visit_count
  traverse_complete zero stack path visited pending n b c v p h = absurd (cc h)
  traverse_complete (suc fuel) [] path visited pending n b c v p h = ground arith
  traverse_complete (suc fuel) (leave a ∷ rest) path visited pending n b c v p h =
      traverse_complete fuel rest (delete a path) visited pending n b c v p h
  traverse_complete (suc fuel) (visit _ depth ∷ rest) path visited pending n b
        (_, k, leaf deep, c, e) v p h =
      let within = not_exceeding limits (suc visited) depth (omega arith) deep in
      traverse_complete fuel rest path (suc visited) (pending - 1) k b c (omega arith) (omega arith)
        (rw (within, traverse) at h)
  traverse_complete (suc fuel) (visit _ depth ∷ rest) path visited pending n b
        (_, k, node {nodes} a deep fresh all, c, e) v p h =
      let within = not_exceeding limits (suc visited) depth (omega arith) deep in
      let stack = visits (suc depth) (heap a) (leave a ∷ rest) in
      let left = subst (λ q. Clear heap limits q rest k) (sym (delete_added a path)) c in
      let few : ltb limits.max_input_nodes (suc visited + (pending - 1) + length (heap a)) ≡ false =
        ground
          (arith, UnfoldsAll-length heap limits all, visit_count-bound heap limits path rest k c) in
      traverse_complete fuel stack (a ∷ path) (suc visited) (pending - 1 + length (heap a))
        (nodes + k) b (Clear-visits heap limits (leave a ∷ rest) nodes k all left) (omega arith)
        (omega (arith, visit_count-visits (suc depth) (heap a) (leave a ∷ rest)))
        (rw (within, fresh, few, traverse) at h)

  start-Clear :
      (vs : List Value) (stack : List AguiInputFrame) {n : ℕ}
      → Clear heap limits [] (start vs stack) n
      → (m : ℕ) × (k : ℕ) × UnfoldsAll heap limits [] 0 vs m
        × Clear heap limits [] stack k
        × (n ≡ m + k)
  unfolding start Clear
  start-Clear [] stack {n} c = (0, n, no_values, c, omega arith)
  start-Clear (v ∷ vs) stack c =
      let (m, k, all, (i, j, u, rest, e), e') = start-Clear vs (visit v 0 ∷ stack) c in
      (i + m, j, values i m u all, rest, omega arith)

  Clear-start :
      {vs : List Value} (stack : List AguiInputFrame) (m k : ℕ)
      → UnfoldsAll heap limits [] 0 vs m
      → Clear heap limits [] stack k
      → Clear heap limits [] (start vs stack) (m + k)
  unfolding start Clear
  Clear-start stack m k no_values c =
      subst (Clear heap limits [] stack) (let e : k ≡ 0 + k = omega arith in e) c
  Clear-start stack m k (values {v} {vs} i j u rest) c =
      subst (Clear heap limits [] (start vs (visit v 0 ∷ stack)))
        (let e : j + (i + k) ≡ i + j + k = omega arith in e)
        (Clear-start (visit v 0 ∷ stack) j (i + k) rest (i, k, u, c, refl))

  visit_count-start :
      (vs : List Value) (stack : List AguiInputFrame)
      → visit_count (start vs stack) ≡ length vs + visit_count stack
  unfolding start visit_count
  visit_count-start [] stack = omega arith
  visit_count-start (v ∷ vs) stack = omega (arith, visit_count-start vs (visit v 0 ∷ stack))

  -- Values pass if and only if they unfold to finite trees, of at most the allowed number of nodes
  -- in all and of at most the allowed depth, in which no object lies below itself.
  pub passes_input_preflight_iff :
      (vs : List Value)
      → (passes_input_preflight heap limits vs ≡ some true)
        ↔ ((n : ℕ) × UnfoldsAll heap limits [] 0 vs n × (n ≤ limits.max_input_nodes))
  unfolding passes_input_preflight Clear visit_count
  passes_input_preflight_iff vs = (
    λ h.
        let (n, c, bound) =
          traverse_sound heap limits (suc (2 * limits.max_input_nodes)) (start vs []) [] 0
            (length vs) (omega arith) h in
        let (m, k, all, rest, e) = start-Clear vs [] c in (m, all, omega arith),
    λ (n, all, bound).
        let (b, ends) = passes_input_preflight_ends heap limits vs in
        let passed =
          traverse_complete (suc (2 * limits.max_input_nodes)) (start vs []) [] 0 (length vs)
            (n + 0) b (Clear-start [] n 0 all refl) (omega arith)
            (omega (arith, visit_count-start vs [])) ends in
        rw (← passed) ends,
  )

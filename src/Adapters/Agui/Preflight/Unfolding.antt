-- ===== src/Adapters/Agui/Preflight/Unfolding.antt =====
-- What the traversal looks for: values that unfold to finite trees within the limits.
use pausemesh.Prelude.{
  ℕ, suc, ◌+◌, ◌≤◌, ◌≡◌, refl, Bool, true, false, ◌||◌, ltb, List, [], ◌∷◌, length, subst, arith,
  ◌==◌, ==_iff,
}
use pausemesh.Adapters.Agui.Preflight.{
  Primitive, Value, primitive, object, Heap, AguiInputLimits, AguiInputFrame, visit, leave, has,
  delete, visits,
}

module _ (heap : Heap) (limits : AguiInputLimits) where
  mutual
    -- Below the objects of `path` and at this depth, the value unfolds to a tree of so many nodes,
    -- no object is its own part and no node lies too deep.
    pub data Unfolds : List ℕ → ℕ → Value → ℕ → Type 0 where
      leaf :
          {path : List ℕ} {depth : ℕ} {p : Primitive}
          → depth ≤ limits.max_input_depth
          → Unfolds path depth (primitive p) 1
      node :
          {path : List ℕ} {depth nodes : ℕ} (a : ℕ)
          → depth ≤ limits.max_input_depth
          → has a path ≡ false
          → UnfoldsAll (a ∷ path) (suc depth) (heap a) nodes
          → Unfolds path depth (object a) (suc nodes)

    pub data UnfoldsAll : List ℕ → ℕ → List Value → ℕ → Type 0 where
      no_values : {path : List ℕ} {depth : ℕ} → UnfoldsAll path depth [] 0
      values :
          {path : List ℕ} {depth : ℕ} {v : Value} {vs : List Value} (m n : ℕ)
          → Unfolds path depth v m
          → UnfoldsAll path depth vs n
          → UnfoldsAll path depth (v ∷ vs) (m + n)

  pub Unfolds-positive :
      {path : List ℕ} {depth : ℕ} {v : Value} {n : ℕ} → Unfolds path depth v n → 1 ≤ n
  Unfolds-positive (leaf h) = omega arith
  Unfolds-positive (node a h fresh rest) = omega arith

  pub UnfoldsAll-length :
      {path : List ℕ} {depth : ℕ} {vs : List Value} {n : ℕ}
      → UnfoldsAll path depth vs n
      → length vs ≤ n
  UnfoldsAll-length no_values = omega arith
  UnfoldsAll-length (values m n u rest) = omega (arith, Unfolds-positive u, UnfoldsAll-length rest)

  -- The frames of a stack unfold, to so many nodes in all.
  unfoldable pub Clear : List ℕ → List AguiInputFrame → ℕ → Type 0
  Clear path [] n = n ≡ 0
  Clear path (leave a ∷ stack) n = Clear (delete a path) stack n
  Clear path (visit v depth ∷ stack) n =
      (m : ℕ) × (k : ℕ) × Unfolds path depth v m × Clear path stack k × (n ≡ m + k)

  pub Clear-visits :
      {path : List ℕ} {depth : ℕ} {vs : List Value} (stack : List AguiInputFrame) (m k : ℕ)
      → UnfoldsAll path depth vs m
      → Clear path stack k
      → Clear path (visits depth vs stack) (m + k)
  unfolding visits Clear
  Clear-visits {path} stack m k no_values c =
      subst (Clear path stack) (let e : k ≡ 0 + k = omega arith in e) c
  Clear-visits stack m k (values i j u rest) c =
      (i, j + k, u, Clear-visits stack j k rest c, omega arith)

  pub visits-Clear :
      {path : List ℕ} {depth : ℕ} (vs : List Value) (stack : List AguiInputFrame) {n : ℕ}
      → Clear path (visits depth vs stack) n
      → (m : ℕ) × (k : ℕ) × UnfoldsAll path depth vs m × Clear path stack k × (n ≡ m + k)
  unfolding visits Clear
  visits-Clear [] stack {n} c = (0, n, no_values, c, omega arith)
  visits-Clear (v ∷ vs) stack (i, j, u, c, e) =
      let (m, k, all, rest, e') = visits-Clear vs stack c in
      (i + m, k, values i m u all, rest, omega arith)

-- The frames that are to be visited.
unfoldable pub visit_count : List AguiInputFrame → ℕ
visit_count [] = 0
visit_count (leave a ∷ stack) = visit_count stack
visit_count (visit v depth ∷ stack) = suc (visit_count stack)

pub visit_count-visits :
    (depth : ℕ) (vs : List Value) (stack : List AguiInputFrame)
    → visit_count (visits depth vs stack) ≡ length vs + visit_count stack
unfolding visits visit_count
visit_count-visits depth [] stack = omega arith
visit_count-visits depth (v ∷ vs) stack = omega (arith, visit_count-visits depth vs stack)

module _ (heap : Heap) (limits : AguiInputLimits) where
  pub visit_count-bound :
      (path : List ℕ) (stack : List AguiInputFrame) (n : ℕ)
      → Clear heap limits path stack n
      → visit_count stack ≤ n
  unfolding Clear visit_count
  visit_count-bound path [] n c = omega arith
  visit_count-bound path (leave a ∷ stack) n c = visit_count-bound (delete a path) stack n c
  visit_count-bound path (visit v depth ∷ stack) n (m, k, u, c, e) =
      omega (arith, Unfolds-positive heap limits u, visit_count-bound path stack k c)

-- The check of a popped frame.
abbrev pub exceeds : AguiInputLimits → ℕ → ℕ → Bool
exceeds limits nodes depth = ltb limits.max_input_nodes nodes || ltb limits.max_input_depth depth

pub within_limits :
    (limits : AguiInputLimits) (nodes depth : ℕ)
    → exceeds limits nodes depth ≡ false
    → (nodes ≤ limits.max_input_nodes) × (depth ≤ limits.max_input_depth)
within_limits limits nodes depth h = ground arith

pub not_exceeding :
    (limits : AguiInputLimits) (nodes depth : ℕ)
    → nodes ≤ limits.max_input_nodes
    → depth ≤ limits.max_input_depth
    → exceeds limits nodes depth ≡ false
not_exceeding limits nodes depth h g = ground arith

pub delete_added : (a : ℕ) (path : List ℕ) → delete a (a ∷ path) ≡ path
unfolding delete
delete_added a path = let same : (a == a) ≡ true = (==_iff a a).1 refl in rw same refl

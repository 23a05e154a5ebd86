-- ===== src/Adapters/Agui/Preflight.antt =====
-- The bounded traversal of untrusted values in adapters/agui/interrupt.ts, and its limits. A value
-- is a primitive or the address of an object, so that an object may be shared or be its own part;
-- a read of a property returns its value.
pub mod Unfolding
pub mod Ends
pub mod Sound
pub mod Complete
pub mod Memory
use pausemesh.Prelude.{
  ℕ, zero, suc, ◌+◌, ◌-◌, ◌*◌, Bool, true, false, ◌&&◌, ◌||◌, Option, none, some, List, [], ◌∷◌,
  length, leb, ltb, ◌==◌, if◌then◌else◌,
}
use pausemesh.Prelude.Text.{Text}
use pausemesh.Domain.Types.{max_safe_integer}

-- `other` is `undefined`, or a value that JSON does not have.
pub data Primitive : Type 0 where
  null_value other : Primitive
  boolean : Bool → Primitive
  number : (literal : Text) → Primitive
  text : Text → Primitive

pub data Value : Type 0 where
  primitive : Primitive → Value
  object : (address : ℕ) → Value

-- The values at the keys of an object, in the order of `Object.keys`.
abbrev pub Heap : Type 0
Heap = ℕ → List Value

pub record AguiInputLimits : Type 0 where
  pub max_input_depth : ℕ
  pub max_input_nodes : ℕ

pub data AguiInputFrame : Type 0 where
  visit : (value : Value) (depth : ℕ) → AguiInputFrame
  leave : (address : ℕ) → AguiInputFrame

-- `??` and `Number.isSafeInteger`: an option that is no natural number is `some none`.
limit_or : ℕ → Option (Option ℕ) → Option ℕ
limit_or default none = some default
limit_or default (some none) = none
limit_or default (some (some n)) = if leb 1 n && leb n max_safe_integer then some n else none

both_limits : Option ℕ → Option ℕ → Option AguiInputLimits
both_limits (some depth) (some nodes) =
    some (record { max_input_depth = depth; max_input_nodes = nodes })
both_limits _ _ = none

unfoldable pub parse_input_limits : Option (Option ℕ) → Option (Option ℕ) → Option AguiInputLimits
unfolding limit_or both_limits
parse_input_limits depth nodes = both_limits (limit_or 64 depth) (limit_or 50_000 nodes)

-- The locals of the traversal; the top of the stack stands first.
pub record Traversal : Type 0 where
  pub stack : List AguiInputFrame
  pub active_path : List ℕ
  pub visited_nodes : ℕ
  pub pending_nodes : ℕ

-- The set holds an address at most once.
unfoldable pub has : ℕ → List ℕ → Bool
has a [] = false
has a (b ∷ path) = (a == b) || has a path

unfoldable pub delete : ℕ → List ℕ → List ℕ
delete a [] = []
delete a (b ∷ path) = let rest = delete a path in if a == b then path else b ∷ rest

-- The frames of an object's values, the first on top.
unfoldable pub visits : ℕ → List Value → List AguiInputFrame → List AguiInputFrame
visits depth [] stack = stack
visits depth (v ∷ vs) stack = visit v depth ∷ visits depth vs stack

-- The last of the values is on top.
unfoldable pub start : List Value → List AguiInputFrame → List AguiInputFrame
start [] stack = stack
start (v ∷ vs) stack = start vs (visit v 0 ∷ stack)

abbrev pub initial : List Value → Traversal
initial values = record {
  stack = start values [];
  active_path = [];
  visited_nodes = 0;
  pending_nodes = length values;
}

pub data Round : Type 0 where
  answer : Bool → Round
  continue : Traversal → Round

module _ (heap : Heap) (limits : AguiInputLimits) where
  -- A value within the limits was popped, and counted.
  unfoldable pub enter : Value → ℕ → Traversal → Round
  enter (primitive p) depth t = continue t
  enter (object a) depth t =
      if has a t.active_path
      then answer false
      else if ltb limits.max_input_nodes (t.visited_nodes + t.pending_nodes + length (heap a))
      then answer false
      else continue (record {
        stack = visits (suc depth) (heap a) (leave a ∷ t.stack);
        active_path = a ∷ t.active_path;
        visited_nodes = t.visited_nodes;
        pending_nodes = t.pending_nodes + length (heap a);
      })

  -- One round of the loop, on the popped frame.
  unfoldable pub round : List AguiInputFrame → Traversal → Round
  round [] t = answer true
  round (leave a ∷ rest) t =
      continue (record t { stack = rest; active_path = delete a t.active_path })
  round (visit v depth ∷ rest) t =
      let visited = suc t.visited_nodes in
      if ltb limits.max_input_nodes visited || ltb limits.max_input_depth depth
      then answer false
      else enter v depth
          (record t { stack = rest; visited_nodes = visited; pending_nodes = t.pending_nodes - 1 })

  unfoldable pub traverse : ℕ → Traversal → Option Bool
  traverse zero t = none
  traverse (suc fuel) t = elim (round t.stack t) [
    | answer b ↦ some b
    | continue next ↦ traverse fuel next
  ]

  unfoldable pub passes_input_preflight : List Value → Option Bool
  passes_input_preflight values = traverse (suc (2 * limits.max_input_nodes)) (initial values)

-- ===== src/Adapters/Agui/Preflight/Memory.antt =====
-- Untrusted values with what they contain, the JSON values that are read from them, and the
-- continuations of domain/types.ts as JSON values.
use pausemesh.Prelude.{ℕ, Bool, true, false, ◌&&◌, Option, none, some, List, [], ◌∷◌, ◌≡◌, map, not}
use pausemesh.Prelude.Text.{Text, codes, text_eq}
use pausemesh.Json.{Json, null, bool, num, str, arr, obj, Items, nil, cons, Entries, end, entry}
use pausemesh.Storage.Numerals.{decimal}
use pausemesh.Domain.Types.{ContinuationEnvelope, Lifecycle}
use pausemesh.Adapters.Agui.Preflight.{
  null_value, boolean, number, text, Value, primitive, object, Heap,
}

-- An array, or an object with its own enumerable properties in their order.
pub data Contents : Type 0 where
  elements : List Value → Contents
  properties : List (Text × Value) → Contents

abbrev pub Memory : Type 0
Memory = ℕ → Contents

abbrev pub values_at : Contents → List Value
values_at (elements vs) = vs
values_at (properties ps) = map (λ (p : Text × Value). p.1) ps

-- What the traversal sees.
abbrev pub shape : Memory → Heap
shape memory a = values_at (memory a)

same_bool : Bool → Bool → Bool
same_bool true b = b
same_bool false b = not b

-- The value holds the JSON value.
unfoldable mutual
  unfolding same_bool

  pub holds : Memory → Value → Json → Bool
  holds memory (primitive null_value) null = true
  holds memory (primitive (boolean b)) (bool c) = same_bool b c
  holds memory (primitive (number s)) (num t) = text_eq s t
  holds memory (primitive (text s)) (str t) = text_eq s t
  holds memory (object a) (arr xs) = holds_items memory (memory a) xs
  holds memory (object a) (obj es) = holds_entries memory (memory a) es
  holds memory _ _ = false

  pub holds_items : Memory → Contents → Items → Bool
  holds_items memory (elements []) nil = true
  holds_items memory (elements (v ∷ vs)) (cons x xs) =
      holds memory v x && holds_items memory (elements vs) xs
  holds_items memory _ _ = false

  pub holds_entries : Memory → Contents → Entries → Bool
  holds_entries memory (properties []) end = true
  holds_entries memory (properties ((k, v) ∷ ps)) (entry j x es) =
      text_eq k j && (holds memory v x && holds_entries memory (properties ps) es)
  holds_entries memory _ _ = false

-- The JSON value that a value holds, if it holds one.
pub data Reads (memory : Memory) (v : Value) : Option Json → Type 0 where
  readable : {json : Json} → holds memory v json ≡ true → Reads memory v (some json)
  unreadable : ((json : Json) → holds memory v json ≡ false) → Reads memory v none

abbrev lifecycle_entries : Lifecycle → Entries
lifecycle_entries (Lifecycle.pending hash) =
    entry (codes "status") (str (codes "pending")) (entry (codes "resumeTokenHash") (str hash) end)
lifecycle_entries (Lifecycle.resumed at key payload) =
    entry (codes "status") (str (codes "resumed")) (
      entry (codes "resumedAt") (str at)
        (entry (codes "idempotencyKey") (str key) (entry (codes "resumePayload") payload end)))
lifecycle_entries (Lifecycle.cancelled at none) =
    entry (codes "status") (str (codes "cancelled")) (entry (codes "cancelledAt") (str at) end)
lifecycle_entries (Lifecycle.cancelled at (some reason)) =
    entry (codes "status") (str (codes "cancelled"))
      (entry (codes "cancelledAt") (str at) (entry (codes "reason") (str reason) end))
lifecycle_entries (Lifecycle.expired at) =
    entry (codes "status") (str (codes "expired")) (entry (codes "expiredAt") (str at) end)

abbrev pub continuation_json : ContinuationEnvelope → Json
continuation_json c = obj (
    entry (codes "schemaVersion") (num (decimal c.schema_version)) (
      entry (codes "continuationId") (str c.continuation_id) (
        entry (codes "correlationId") (str c.correlation_id) (
          entry (codes "version") (num (decimal c.version)) (
            entry (codes "createdAt") (str c.created_at) (
              entry (codes "expiresAt") (str c.expires_at) (
                entry (codes "payload") c.payload
                  (entry (codes "metadata") (obj c.metadata) (lifecycle_entries c.lifecycle)))))))))

unfoldable pub continuations_json : List ContinuationEnvelope → Items
continuations_json [] = nil
continuations_json (c ∷ cs) = cons (continuation_json c) (continuations_json cs)

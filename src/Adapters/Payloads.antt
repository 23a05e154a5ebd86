-- ===== src/Adapters/Payloads.antt =====
-- What the adapters read of a continuation's payload, by schemas that they share.
use pausemesh.Prelude.{
  ◌≡◌, ◌≢◌, ◌⊎◌, refl, ap, subst, inl, inr, Bool-cases, [], ◌∷◌, Option, none, some, ltb, length,
  if◌then◌else◌, arith,
}
use pausemesh.Prelude.Text.{Text, codes, text_eq, text_eq→eq}
use pausemesh.Json.{Json, null, bool, num, str, arr, obj}

pub data PayloadKind : Type 0 where
  input authorization : PayloadKind

-- `z.enum(["input", "authorization"]).default("input")`
unfoldable pub payload_kind : Option Json → Option PayloadKind
payload_kind none = some input
payload_kind (some (str s)) =
    if text_eq s (codes "input")
    then some input
    else if text_eq s (codes "authorization")
    then some authorization
    else none
payload_kind (some _) = none

-- `z.string().min(1)`
unfoldable pub payload_message : Option Text → Option Text
payload_message none = none
payload_message (some s) = if ltb 0 (length s) then some s else none

-- An input is the default.
unfoldable pub IsKind : PayloadKind → Option Json → Type 0
IsKind input o = (o ≡ none) ⊎ (o ≡ some (str (codes "input")))
IsKind authorization o = o ≡ some (str (codes "authorization"))

pub payload_kind-IsKind :
    (o : Option Json) {kind : PayloadKind} → payload_kind o ≡ some kind → IsKind kind o
unfolding payload_kind IsKind
payload_kind-IsKind none h = subst (λ k. IsKind k none) (let e : input ≡ _ = cc h in e) (inl refl)
payload_kind-IsKind (some (str s)) {kind} h = elim (Bool-cases (text_eq s (codes "input"))) [
  | inl same ↦
      let e : input ≡ kind = cc (rw same at h) in
      subst (λ k. IsKind k (some (str s))) e (inr (ap (λ t. some (str t)) (text_eq→eq s _ same)))
  | inr other ↦ elim (Bool-cases (text_eq s (codes "authorization"))) [
    | inl same ↦
        let e : authorization ≡ kind = cc (rw (other, same) at h) in
        subst (λ k. IsKind k (some (str s))) e (ap (λ t. some (str t)) (text_eq→eq s _ same))
    | inr neither ↦ absurd (cc (rw (other, neither) at h))
  ]
]
payload_kind-IsKind (some null) h = absurd (cc h)
payload_kind-IsKind (some (bool b)) h = absurd (cc h)
payload_kind-IsKind (some (num literal)) h = absurd (cc h)
payload_kind-IsKind (some (arr xs)) h = absurd (cc h)
payload_kind-IsKind (some (obj es)) h = absurd (cc h)

pub payload_message-ok :
    (o : Option Text) {s : Text} → payload_message o ≡ some s → (o ≡ some s) × (s ≢ [])
unfolding payload_message
payload_message-ok none h = absurd (cc h)
payload_message-ok (some []) h = absurd (cc h)
payload_message-ok (some (c ∷ t)) {s} h =
    let e : c ∷ t ≡ s = ground arith in (ap some e, λ empty. cc (e, empty))

-- ===== src/Adapters/Agui/Commands.antt =====
-- What the commands of an accepted batch mean.
use mathlib.Core.Bool.{and-eq-true_iff}
use pausemesh.Prelude.{
  ℕ, ◌≡◌, refl, Bool, true, false, not, Option, none, some, List, [], ◌∷◌, ok, >>=-eq-ok,
  Option-cases, subst, ◌∙◌, inl, inr, arith,
}
use pausemesh.Prelude.Text.{Text, text_eq_iff}
use pausemesh.Json.{Json, JsonObject}
use pausemesh.Json.Canonical.{canonical_json}
use pausemesh.Domain.Types.{ContinuationEnvelope, ContinuationStatus, Lifecycle, status}
use pausemesh.Adapters.Payloads.{PayloadKind, input, authorization}
use pausemesh.Adapters.Protocol.{require, require-ok}
use pausemesh.Adapters.Agui.Receipts.{
  AguiReceiptInterrupt, AguiResumeErrorCode, resume_idempotency_key,
}
use pausemesh.Adapters.Agui.Issuing.{
  AguiResumeEntry, ContinuationPayload, ResumeStatus, parse_payload, payload_or,
}
use pausemesh.Adapters.Agui.Cohorts.{find, found}
use pausemesh.Adapters.Agui.Issued.{payload_or-ok}
use pausemesh.Adapters.Agui.Resuming.{
  AguiResumeCommand, AguiResumeValidationOptions, AguiPayloadValidator, Environment, Validation,
  valid, thrown, invalid, agui_cancelled, allows, cancel_check, command_for, commands_for,
  entry_command, find_entry, is_absent, is_over, policy_check, resume_check, unchanged,
  validate_payload_with_policy,
}

pub found-ok {ℓ} :
    {A : Type ℓ} (code : AguiResumeErrorCode) (o : Option A) {a : A}
    → found code o ≡ ok a
    → o ≡ some a
found-ok code none h = absurd (cc h)
found-ok code (some b) h = ground arith

is_absent-ok : (o : Option Json) → is_absent o ≡ true → o ≡ none
is_absent-ok none h = refl
is_absent-ok (some payload) h = absurd (cc h)

allows-ok : (kind : PayloadKind) → allows kind ≡ true → kind ≡ input
allows-ok input h = refl
allows-ok authorization h = absurd (cc h)

unchanged-ok :
    (payload : Json) (v : Validation)
    → unchanged payload v ≡ ok tt
    → (left : Json) × (v ≡ valid (some left)) × (canonical_json left ≡ canonical_json payload)
unfolding unchanged
unchanged-ok payload (valid (some left)) h =
    (left, refl, (text_eq_iff (canonical_json left) (canonical_json payload)).0 (require-ok _ _ h))
unchanged-ok payload (valid none) h = absurd (cc h)
unchanged-ok payload thrown h = absurd (cc h)
unchanged-ok payload invalid h = absurd (cc h)

not-true : (b : Bool) → not b ≡ true → b ≡ false
not-true b h = ground arith

module _ (env : Environment) (options : AguiResumeValidationOptions) where
  -- The host's validator accepted the payload, and left its copy as it was.
  unfoldable pub IsAllowed : ContinuationEnvelope → Json → Option JsonObject → Type 0
  IsAllowed c payload none = Unit
  IsAllowed c payload (some schema) =
      (validator : AguiPayloadValidator) × (left : Json) × (options.validate_payload
        ≡ some validator)
      × (validator c payload schema ≡ valid (some left))
      × (canonical_json left ≡ canonical_json payload)

  -- The command that answers an entry for a continuation of a thread, issued at a version.
  pub data Answers (thread_id : Text) (version : ℕ) (c : ContinuationEnvelope) (e : AguiResumeEntry)
      : AguiResumeCommand → Type 0 where
    cancels :
        (status c ≡ ContinuationStatus.pending)
        → (e.status ≡ ResumeStatus.cancelled) × (e.payload ≡ none)
        → is_over env options c ≡ false
        → Answers thread_id version c e (AguiResumeCommand.cancel c.continuation_id version)
    cancelled_before :
        (at : Text)
        → c.lifecycle ≡ Lifecycle.cancelled at (some agui_cancelled)
        → (e.status ≡ ResumeStatus.cancelled) × (e.payload ≡ none)
        → Answers thread_id version c e (AguiResumeCommand.cancel c.continuation_id version)
    resumes :
        (payload : Json) (contract : ContinuationPayload)
        → status c ≡ ContinuationStatus.pending
        → (e.status ≡ ResumeStatus.resolved) × (e.payload ≡ some payload)
        → (parse_payload c.payload ≡ some contract) × (contract.kind ≡ input)
        → is_over env options c ≡ false
        → IsAllowed c payload contract.response_schema
        → Answers thread_id version c e (
            AguiResumeCommand.resume c.continuation_id
              (resume_idempotency_key env.sha256 thread_id c.continuation_id payload)
              payload)
    resumed_before :
        (payload recorded : Json) (at : Text)
        → c.lifecycle
          ≡ Lifecycle.resumed at
              (resume_idempotency_key env.sha256 thread_id c.continuation_id payload)
              recorded
        → canonical_json recorded ≡ canonical_json payload
        → (e.status ≡ ResumeStatus.resolved) × (e.payload ≡ some payload)
        → Answers thread_id version c e (
            AguiResumeCommand.resume c.continuation_id
              (resume_idempotency_key env.sha256 thread_id c.continuation_id payload)
              payload)

  policy_check-IsAllowed :
      (c : ContinuationEnvelope) (payload : Json) (schema : Option JsonObject)
      → policy_check env options c payload schema ≡ ok tt
      → IsAllowed c payload schema
  unfolding policy_check validate_payload_with_policy IsAllowed
  policy_check-IsAllowed c payload none h = tt
  policy_check-IsAllowed c payload (some schema) h = elim (Option-cases options.validate_payload) [
    | inl missing ↦ absurd (cc (rw missing at h))
    | inr (validator, e) ↦
        let (left, called, same) =
          unchanged-ok payload (validator c payload schema)
            (rw (e, validate_payload_with_policy) at h) in
        (validator, left, e, called, same)
  ]

  cancel-Answers :
      (thread_id : Text) (version : ℕ) (c : ContinuationEnvelope) (e : AguiResumeEntry)
      (l : Lifecycle)
      → c.lifecycle ≡ l
      → (e.status ≡ ResumeStatus.cancelled) × (e.payload ≡ none)
      → cancel_check env options c l ≡ ok tt
      → Answers thread_id version c e (AguiResumeCommand.cancel c.continuation_id version)
  unfolding cancel_check
  cancel-Answers thread_id version c e (Lifecycle.pending hash) p asked h =
      cancels (rw p refl) asked (not-true (is_over env options c) (require-ok _ _ h))
  cancel-Answers thread_id version c e (Lifecycle.resumed at key payload) p asked h = absurd (cc h)
  cancel-Answers thread_id version c e (Lifecycle.cancelled at none) p asked h = absurd (cc h)
  cancel-Answers thread_id version c e (Lifecycle.cancelled at (some reason)) p asked h =
      let same = (text_eq_iff reason agui_cancelled).0 (require-ok _ _ h) in
      cancelled_before at (rw (← same) p) asked
  cancel-Answers thread_id version c e (Lifecycle.expired at) p asked h = absurd (cc h)

  resume-Answers :
      (thread_id : Text) (version : ℕ) (c : ContinuationEnvelope) (e : AguiResumeEntry)
      (payload : Json) (contract : ContinuationPayload) (l : Lifecycle)
      → c.lifecycle ≡ l
      → (e.status ≡ ResumeStatus.resolved) × (e.payload ≡ some payload)
      → (parse_payload c.payload ≡ some contract) × (contract.kind ≡ input)
      → resume_check env options c
          (resume_idempotency_key env.sha256 thread_id c.continuation_id payload)
          payload
          contract.response_schema
          l
        ≡ ok tt
      → Answers thread_id version c e (
          AguiResumeCommand.resume c.continuation_id
            (resume_idempotency_key env.sha256 thread_id c.continuation_id payload)
            payload)
  unfolding resume_check
  resume-Answers thread_id version c e payload contract (Lifecycle.pending hash) p asked typed h =
      let (_, early, allowed) = >>=-eq-ok (require (not (is_over env options c)) _) _ h in
      resumes payload contract (rw p refl) asked typed
        (not-true (is_over env options c) (require-ok _ _ early))
        (policy_check-IsAllowed c payload contract.response_schema allowed)
  resume-Answers thread_id version c e payload contract (Lifecycle.resumed at key recorded) p asked
        typed h =
      let expected = resume_idempotency_key env.sha256 thread_id c.continuation_id payload in
      let (keys, texts) = (and-eq-true_iff _ _).0 (require-ok _ _ h) in
      let same_key = (text_eq_iff key expected).0 keys in
      resumed_before payload recorded at (rw (← same_key) p)
        ((text_eq_iff (canonical_json recorded) (canonical_json payload)).0 texts) asked
  resume-Answers thread_id version c e payload contract (Lifecycle.cancelled at reason) p asked
        typed h =
      absurd (cc h)
  resume-Answers thread_id version c e payload contract (Lifecycle.expired at) p asked typed h =
      absurd (cc h)

  pub entry_command-Answers :
      (thread_id : Text) (issued : AguiReceiptInterrupt) (c : ContinuationEnvelope)
      (contract : ContinuationPayload) (e : AguiResumeEntry) (payload : Option Json)
      (asked : ResumeStatus) {k : AguiResumeCommand}
      → e.payload ≡ payload
      → e.status ≡ asked
      → parse_payload c.payload ≡ some contract
      → entry_command env options thread_id issued c contract payload asked ≡ ok k
      → Answers thread_id issued.issued_version c e k
  unfolding entry_command
  entry_command-Answers thread_id issued c contract e payload ResumeStatus.cancelled p s parsed h =
      let (_, absent, h1) = >>=-eq-ok (require (is_absent payload) _) _ h in
      let (_, checked, h2) = >>=-eq-ok (cancel_check env options c c.lifecycle) _ h1 in
      let empty = p ∙ is_absent-ok payload (require-ok _ _ absent) in
      subst (Answers thread_id issued.issued_version c e) (cc h2)
        (cancel-Answers thread_id issued.issued_version c e c.lifecycle refl (s, empty) checked)
  entry_command-Answers thread_id issued c contract e none ResumeStatus.resolved p s parsed h =
      absurd (cc h)
  entry_command-Answers thread_id issued c contract e (some payload) ResumeStatus.resolved p s
        parsed h =
      let key = resume_idempotency_key env.sha256 thread_id c.continuation_id payload in
      let (_, kind, h1) = >>=-eq-ok (require (allows contract.kind) _) _ h in
      let (_, checked, h2) =
        >>=-eq-ok (resume_check env options c key payload contract.response_schema c.lifecycle) _
          h1 in
      subst (Answers thread_id issued.issued_version c e) (cc h2) (
        resume-Answers thread_id issued.issued_version c e payload contract c.lifecycle refl (s, p)
          (parsed, allows-ok contract.kind (require-ok _ _ kind)) checked)

  -- One command for each issued interrupt, in their order, which answers the entry that bears its
  -- identifier for the continuation that bears it.
  unfoldable pub AllAnswers :
      Text
      → List ContinuationEnvelope
      → List AguiResumeEntry
      → List AguiReceiptInterrupt
      → List AguiResumeCommand
      → Type 0
  AllAnswers thread_id current entries [] [] = Unit
  AllAnswers thread_id current entries [] (k ∷ ks) = ⊥
  AllAnswers thread_id current entries (i ∷ is) [] = ⊥
  AllAnswers thread_id current entries (i ∷ is) (k ∷ ks) =
      ((c : ContinuationEnvelope) × (e : AguiResumeEntry) × (find i.continuation_id current
          ≡ some c)
        × (find_entry i.continuation_id entries ≡ some e)
        × Answers thread_id i.issued_version c e k)
      × AllAnswers thread_id current entries is ks

  pub commands_for-AllAnswers :
      (thread_id : Text) (current : List ContinuationEnvelope) (entries : List AguiResumeEntry)
      (is : List AguiReceiptInterrupt) (ks : List AguiResumeCommand)
      → commands_for env options thread_id current entries is ≡ ok ks
      → AllAnswers thread_id current entries is ks
  unfolding commands_for command_for AllAnswers
  commands_for-AllAnswers thread_id current entries [] [] h = tt
  commands_for-AllAnswers thread_id current entries [] (k ∷ ks) h = absurd (cc h)
  commands_for-AllAnswers thread_id current entries (i ∷ is) ks h =
      let (c, hc, h1) = >>=-eq-ok (found _ (find i.continuation_id current)) _ h in
      let (e, he, h2) = >>=-eq-ok (found _ (find_entry i.continuation_id entries)) _ h1 in
      let (k, hk, h3) = >>=-eq-ok (command_for env options thread_id i c e) _ h2 in
      let (rest, hrest, h4) =
        >>=-eq-ok (commands_for env options thread_id current entries is) _ h3 in
      let (contract, parsed, h5) = >>=-eq-ok (payload_or _ (parse_payload c.payload)) _ hk in
      let same : k ∷ rest ≡ ks = cc h4 in
      subst (AllAnswers thread_id current entries (i ∷ is)) same (
        (
          c,
          e,
          found-ok _ _ hc,
          found-ok _ _ he,
          entry_command-Answers thread_id i c contract e e.payload e.status refl refl
              (payload_or-ok _ _ parsed) h5,
        ),
        commands_for-AllAnswers thread_id current entries is rest hrest,
      )

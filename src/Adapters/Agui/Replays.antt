-- ===== src/Adapters/Agui/Replays.antt =====
-- The commands of a batch that was accepted again, and what the service answers to them.
use pausemesh.Prelude.{
  ℕ, zero, suc, ◌+◌, ◌≡◌, refl, sym, true, Option, some, List, [], ◌∷◌, ok, >>=-eq-ok, ◌==◌,
  Bool-cases, Option-cases, get_elem?, ◌⊎◌, inl, inr, ◌∙◌, arith,
}
use pausemesh.Prelude.Text.{Text, text_eq, text_eq_iff, text_eq_refl}
use pausemesh.Json.{Json}
use pausemesh.Json.Canonical.{canonical_json}
use pausemesh.Domain.Types.{
  ContinuationId, ContinuationEnvelope, ContinuationStatus, Lifecycle, status,
}
use pausemesh.Service.Inputs.{ResumeContinuationInput, CancelContinuationInput}
use pausemesh.Service.Outcomes.{
  resumed_outcome, resolve_completed_resume, resolve_completed_cancellation,
}
use pausemesh.Adapters.Protocol.{require}
use pausemesh.Adapters.Agui.Receipts.{AguiReceiptInterrupt}
use pausemesh.Adapters.Agui.Issuing.{AguiResumeEntry}
use pausemesh.Adapters.Agui.Cohorts.{find, is_whole, matches, check_issued, validate_current_cohort}
use pausemesh.Adapters.Agui.Matching.{matches_iff, check_issued-cons}
use pausemesh.Adapters.Agui.Commands.{
  Answers, cancels, cancelled_before, resumes, resumed_before, AllAnswers, commands_for-AllAnswers,
}
use pausemesh.Adapters.Agui.Resuming.{
  AguiResumeCommand, AguiResumeValidationOptions, Environment, RunAgentInput, agui_cancelled,
  from_parsed,
}
use pausemesh.Adapters.Agui.Batches.{from_parsed-IsAccepted}

abbrev pub command_id : AguiResumeCommand → ContinuationId
command_id (AguiResumeCommand.resume id key payload) = id
command_id (AguiResumeCommand.cancel id version) = id

-- The inputs with which a host runs a command.
abbrev pub resume_input : ContinuationId → Text → Json → Text → ResumeContinuationInput
resume_input id key payload token = record {
  continuation_id = id;
  idempotency_key = key;
  resume_payload = payload;
  resume_token = token;
}

abbrev pub cancel_input : ContinuationId → ℕ → CancelContinuationInput
cancel_input id version = record {
  continuation_id = id;
  expected_version = some version;
  reason = some agui_cancelled;
}

-- The service answers the command with the recorded outcome, whatever token is shown.
abbrev pub IsReplayed : ContinuationEnvelope → AguiResumeCommand → Type 0
IsReplayed c (AguiResumeCommand.resume id key payload) =
    (token : Text) → resolve_completed_resume c (resume_input id key payload token) ≡ ok (some c)
IsReplayed c (AguiResumeCommand.cancel id version) =
    (at : Text) × (reason : Option Text) × (c.lifecycle ≡ Lifecycle.cancelled at reason)
    × (resolve_completed_cancellation c reason (cancel_input id version) ≡ ok c)

find_id :
    (id : ContinuationId) (cs : List ContinuationEnvelope) {c : ContinuationEnvelope}
    → find id cs ≡ some c
    → c.continuation_id ≡ id
unfolding find
find_id id [] h = absurd (cc h)
find_id id (d ∷ cs) {c} h = elim (Option-cases (find id cs)) [
  | inr (e, later) ↦ find_id id cs (later ∙ rw (later, find) at h)
  | inl last ↦ elim (Bool-cases (text_eq id d.continuation_id)) [
    | inl here ↦
        let same : d ≡ c = ground (arith, rw (last, here, find) at h) in
        rw (← same) (sym ((text_eq_iff id d.continuation_id).0 here))
    | inr other ↦ absurd (cc (rw (last, other, find) at h))
  ]
]

module _ (env : Environment) (options : AguiResumeValidationOptions) where
  IsReplayed-resume :
      (c : ContinuationEnvelope) (key at : Text) (payload recorded : Json)
      → c.lifecycle ≡ Lifecycle.resumed at key recorded
      → canonical_json recorded ≡ canonical_json payload
      → IsReplayed c (AguiResumeCommand.resume c.continuation_id key payload)
  unfolding resolve_completed_resume resumed_outcome
  IsReplayed-resume c key at payload recorded p same token =
      rw (p, text_eq_refl key, same, text_eq_refl (canonical_json payload)) refl

  IsReplayed-cancellation :
      (c : ContinuationEnvelope) (at : Text) (version : ℕ)
      → c.lifecycle ≡ Lifecycle.cancelled at (some agui_cancelled)
      → (c.version == version + 1) ≡ true
      → IsReplayed c (AguiResumeCommand.cancel c.continuation_id version)
  unfolding resolve_completed_cancellation
  IsReplayed-cancellation c at version p e =
      (at, some agui_cancelled, p, rw (text_eq_refl agui_cancelled, e) refl)

  Answers-IsReplayed :
      (thread_id : Text) (i : AguiReceiptInterrupt) (c : ContinuationEnvelope) (e : AguiResumeEntry)
      (k : AguiResumeCommand)
      → matches env.sha256 thread_id i c ≡ true
      → Answers env options thread_id i.issued_version c e k
      → (status c ≡ ContinuationStatus.pending) ⊎ IsReplayed c k
  Answers-IsReplayed thread_id i c e k m (cancels pending asked early) = inl pending
  Answers-IsReplayed thread_id i c e k m (cancelled_before at p asked) =
      let (_, _, version, _) = (matches_iff env.sha256 thread_id i c).0 m in
      inr (IsReplayed-cancellation c at i.issued_version p (rw p at version))
  Answers-IsReplayed thread_id i c e k m (resumes payload contract pending asked typed early a) =
      inl pending
  Answers-IsReplayed thread_id i c e k m (resumed_before payload recorded at p same asked) =
      inr (IsReplayed-resume c _ at payload recorded p same)

  Answers-id :
      (thread_id : Text) (version : ℕ) (c : ContinuationEnvelope) (e : AguiResumeEntry)
      (k : AguiResumeCommand)
      → Answers env options thread_id version c e k
      → command_id k ≡ c.continuation_id
  Answers-id thread_id version c e k (cancels pending asked early) = refl
  Answers-id thread_id version c e k (cancelled_before at p asked) = refl
  Answers-id thread_id version c e k (resumes payload contract pending asked typed early a) = refl
  Answers-id thread_id version c e k (resumed_before payload recorded at p same asked) = refl

  IsReplayed-at :
      (thread_id : Text) (current : List ContinuationEnvelope) (entries : List AguiResumeEntry)
      (is : List AguiReceiptInterrupt) (ks : List AguiResumeCommand) (n : ℕ) {k : AguiResumeCommand}
      → check_issued env.sha256 thread_id current is ≡ ok tt
      → AllAnswers env options thread_id current entries is ks
      → get_elem? ks n ≡ some k
      → (c : ContinuationEnvelope) × (find (command_id k) current ≡ some c)
        × ((status c ≡ ContinuationStatus.pending) ⊎ IsReplayed c k)
  unfolding AllAnswers
  IsReplayed-at thread_id current entries [] [] n h a e = absurd (cc e)
  IsReplayed-at thread_id current entries [] (k ∷ ks) n h a e = absurd a
  IsReplayed-at thread_id current entries (i ∷ is) [] n h a e = absurd a
  IsReplayed-at thread_id current entries (i ∷ is) (k ∷ ks) zero {k = l} h
        ((c, entry, hc, _, a), rest) e =
      let same : k ≡ l = ground arith in
      let (m, _) = check_issued-cons env.sha256 thread_id current i is h hc in
      let own =
        Answers-id thread_id i.issued_version c entry k a ∙ find_id i.continuation_id current hc in
      (c, rw (← same, own) hc, rw (← same) (Answers-IsReplayed thread_id i c entry k m a))
  IsReplayed-at thread_id current entries (i ∷ is) (k ∷ ks) (suc n) h ((c, _, hc, _, _), rest) e =
      let (_, h') = check_issued-cons env.sha256 thread_id current i is h hc in
      IsReplayed-at thread_id current entries is ks n h' rest e

  -- Each command of an accepted batch addresses a current continuation that is pending, or one for
  -- which the service answers the command with the outcome that is recorded.
  pub from_parsed-IsReplayed :
      (parsed_input : Option RunAgentInput) (raw_receipt : Option Json)
      (current : List ContinuationEnvelope) (ks : List AguiResumeCommand) (n : ℕ)
      (k : AguiResumeCommand)
      → from_parsed env options parsed_input raw_receipt current ≡ ok ks
      → get_elem? ks n ≡ some k
      → (c : ContinuationEnvelope) × (find (command_id k) current ≡ some c)
        × ((status c ≡ ContinuationStatus.pending) ⊎ IsReplayed c k)
  unfolding validate_current_cohort
  from_parsed-IsReplayed parsed_input raw_receipt current ks n k h e =
      let a = from_parsed-IsAccepted env options parsed_input raw_receipt current ks h in
      let d = a.receipt.descriptor in
      let (_, _, checked) = >>=-eq-ok (require (is_whole a.receipt current) _) _ a.whole in
      IsReplayed-at d.thread_id current a.entries d.interrupts ks n checked
        (commands_for-AllAnswers env options d.thread_id current a.entries d.interrupts ks
          a.commanded)
        e

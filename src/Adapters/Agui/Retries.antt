-- ===== src/Adapters/Agui/Retries.antt =====
-- A batch that comes again after its commands ran, with the receipt that was issued.
use pausemesh.Prelude.{
  ℕ, ◌+◌, ◌≡◌, ◌≢◌, refl, sym, ap, ◌∙◌, true, Option, none, some, List, [], ◌∷◌, ok, >>=-eq-ok,
  ◌==◌, ==_iff, length, length-map, arith,
}
use pausemesh.Prelude.Text.{Text, text_eq_refl}
use pausemesh.Json.{Json, JsonObject}
use pausemesh.Json.Canonical.{canonical_json}
use pausemesh.Domain.Types.{ContinuationEnvelope, ContinuationStatus, Lifecycle, status, status_of}
use pausemesh.Domain.Events.{ContinuationEvent, EventBody}
use pausemesh.Domain.Reducer.Steps.{Closes, resumes, cancels, Transition}
use pausemesh.Adapters.Protocol.{require, require-ok}
use pausemesh.Adapters.Agui.Receipts.{
  AguiReceiptInterrupt, AguiInterruptReceipt, invalid_input, resume_idempotency_key,
}
use pausemesh.Adapters.Agui.Issuing.{
  AguiResumeEntry, ContinuationPayload, ResumeStatus, parse_payload, payload_or,
}
use pausemesh.Adapters.Agui.Issued.{payload_or-ok}
use pausemesh.Adapters.Agui.Cohorts.{
  ids_of, find, found, is_whole, matches, check_issued, validate_current_cohort, validate_receipt,
  expected_version,
}
use pausemesh.Adapters.Agui.Commands.{
  Answers, cancels, cancelled_before, resumes, resumed_before, found-ok, entry_command-Answers,
}
use pausemesh.Adapters.Agui.Resuming.{
  AguiResumeCommand, AguiResumeValidationOptions, Environment, agui_cancelled, cancel_check,
  command_for, commands_for, covers, entry_command, find_entry, from_parsed, require_clock,
  resume_check, Arguments, RunAgentInput, from_agui_run_agent_input, preflight, roots,
}
use pausemesh.Adapters.Agui.Batches.{from_parsed-IsAccepted}
use pausemesh.Adapters.Agui.Matching.{check_issued-cons, matches_iff}
use pausemesh.Adapters.Agui.Preflight.{parse_input_limits}
use pausemesh.Adapters.Agui.Preflight.Memory.{shape}

-- The event that a command appends.
abbrev pub body_of : AguiResumeCommand → EventBody
body_of (AguiResumeCommand.resume id key payload) = EventBody.resumed key payload
body_of (AguiResumeCommand.cancel id version) = EventBody.cancelled (some agui_cancelled)

-- What a command that ran leaves: a closed state as it was, and the next state of a pending one.
pub data Ran (k : AguiResumeCommand) (c : ContinuationEnvelope)
    : ContinuationEnvelope → Type 0 where
  unmoved : status c ≢ ContinuationStatus.pending → Ran k c c
  moved :
      {d : ContinuationEnvelope} (event : ContinuationEvent)
      → Transition c event d
      → event.body ≡ body_of k
      → Ran k c d

-- The commands of a cohort have run.
pub data AllRan (before after : List ContinuationEnvelope)
    : List AguiReceiptInterrupt → List AguiResumeCommand → Type 0 where
  none_ran : AllRan before after [] []
  ran :
      {i : AguiReceiptInterrupt} {is : List AguiReceiptInterrupt} {k : AguiResumeCommand}
      {ks : List AguiResumeCommand} (c d : ContinuationEnvelope)
      → find i.continuation_id before ≡ some c
      → find i.continuation_id after ≡ some d
      → Ran k c d
      → AllRan before after is ks
      → AllRan before after (i ∷ is) (k ∷ ks)

Closes-resumed :
    {at key : Text} {payload : Json} {body : EventBody} {l : Lifecycle}
    → Closes at body l
    → body ≡ EventBody.resumed key payload
    → l ≡ Lifecycle.resumed at key payload
Closes-resumed Closes.resumes e = cc e
Closes-resumed Closes.cancels e = absurd (cc e)
Closes-resumed Closes.expires e = absurd (cc e)

Closes-cancelled :
    {at : Text} {reason : Option Text} {body : EventBody} {l : Lifecycle}
    → Closes at body l
    → body ≡ EventBody.cancelled reason
    → l ≡ Lifecycle.cancelled at reason
Closes-cancelled Closes.resumes e = absurd (cc e)
Closes-cancelled Closes.cancels e = cc e
Closes-cancelled Closes.expires e = absurd (cc e)

expected_closed :
    {at : Text} {body : EventBody} {l : Lifecycle} (issued : ℕ)
    → Closes at body l
    → expected_version issued l ≡ issued + 1
expected_closed issued Closes.resumes = refl
expected_closed issued Closes.cancels = refl
expected_closed issued Closes.expires = refl

expected_pending :
    (issued : ℕ) (l : Lifecycle)
    → status_of l ≡ ContinuationStatus.pending
    → expected_version issued l ≡ issued
expected_pending issued (Lifecycle.pending hash) h = refl
expected_pending issued (Lifecycle.resumed at key payload) h = absurd (cc h)
expected_pending issued (Lifecycle.cancelled at reason) h = absurd (cc h)
expected_pending issued (Lifecycle.expired at) h = absurd (cc h)

module _ (sha256 : Text → Text) (thread_id : Text) where
  matches-Ran :
      (i : AguiReceiptInterrupt) (k : AguiResumeCommand) (c d : ContinuationEnvelope)
      → matches sha256 thread_id i c ≡ true
      → Ran k c d
      → matches sha256 thread_id i d ≡ true
  matches-Ran i k c d m (unmoved closed) = m
  matches-Ran i k c d m (moved event t same) =
      let r = t.request in
      let (own, due, at_issue, hash) = (matches_iff sha256 thread_id i c).0 m in
      let before = expected_pending i.issued_version c.lifecycle t.was_pending in
      let after = expected_closed i.issued_version t.closes in
      let (to, _) = ==_iff c.version i.issued_version in
      let version : (d.version == expected_version i.issued_version d.lifecycle) ≡ true =
        rw (after, t.version, t.fence, to (rw before at at_issue))
          ((==_iff (i.issued_version + 1) (i.issued_version + 1)).1 refl) in
      (matches_iff sha256 thread_id i d).1
        (rw r.correlation_id own, rw r.expires_at due, version, rw r.payload hash)

  check_issued-AllRan :
      (before after : List ContinuationEnvelope) (is : List AguiReceiptInterrupt)
      (ks : List AguiResumeCommand)
      → check_issued sha256 thread_id before is ≡ ok tt
      → AllRan before after is ks
      → check_issued sha256 thread_id after is ≡ ok tt
  unfolding check_issued
  check_issued-AllRan before after is ks h none_ran = refl
  check_issued-AllRan before after is ks h (ran {i} {is = js} {k} {ks = ls} c d hc hd r rest) =
      let (m, h') = check_issued-cons sha256 thread_id before i js h hc in
      rw (hd, matches-Ran i k c d m r) (check_issued-AllRan before after js ls h' rest)

module _ (env : Environment) (options later : AguiResumeValidationOptions) where
  cancel_check_closed :
      (c : ContinuationEnvelope) (l : Lifecycle)
      → status_of l ≢ ContinuationStatus.pending
      → cancel_check env later c l ≡ cancel_check env options c l
  unfolding cancel_check
  cancel_check_closed c (Lifecycle.pending hash) ne = absurd (ne refl)
  cancel_check_closed c (Lifecycle.resumed at key payload) ne = refl
  cancel_check_closed c (Lifecycle.cancelled at none) ne = refl
  cancel_check_closed c (Lifecycle.cancelled at (some reason)) ne = refl
  cancel_check_closed c (Lifecycle.expired at) ne = refl

  resume_check_closed :
      (c : ContinuationEnvelope) (key : Text) (payload : Json) (schema : Option JsonObject)
      (l : Lifecycle)
      → status_of l ≢ ContinuationStatus.pending
      → resume_check env later c key payload schema l
        ≡ resume_check env options c key payload schema l
  unfolding resume_check
  resume_check_closed c key payload schema (Lifecycle.pending hash) ne = absurd (ne refl)
  resume_check_closed c key payload schema (Lifecycle.resumed at k p) ne = refl
  resume_check_closed c key payload schema (Lifecycle.cancelled at reason) ne = refl
  resume_check_closed c key payload schema (Lifecycle.expired at) ne = refl

  entry_command_closed :
      (thread_id : Text) (i : AguiReceiptInterrupt) (c : ContinuationEnvelope)
      (contract : ContinuationPayload) (payload : Option Json) (asked : ResumeStatus)
      → status c ≢ ContinuationStatus.pending
      → entry_command env later thread_id i c contract payload asked
        ≡ entry_command env options thread_id i c contract payload asked
  unfolding entry_command
  entry_command_closed thread_id i c contract payload ResumeStatus.cancelled ne =
      rw (cancel_check_closed c c.lifecycle ne) refl
  entry_command_closed thread_id i c contract none ResumeStatus.resolved ne = refl
  entry_command_closed thread_id i c contract (some payload) ResumeStatus.resolved ne =
      rw
        (resume_check_closed c
          (resume_idempotency_key env.sha256 thread_id c.continuation_id payload) payload
          contract.response_schema c.lifecycle ne)
        refl

  entry_command-moved :
      (thread_id : Text) (i : AguiReceiptInterrupt) (c d : ContinuationEnvelope)
      (contract : ContinuationPayload) (e : AguiResumeEntry) (k : AguiResumeCommand)
      (event : ContinuationEvent)
      → Transition c event d
      → event.body ≡ body_of k
      → Answers env options thread_id i.issued_version c e k
      → parse_payload c.payload ≡ some contract
      → entry_command env later thread_id i d contract e.payload e.status ≡ ok k
  unfolding entry_command cancel_check resume_check
  entry_command-moved thread_id i c d contract e k event t same (cancels p (asked, empty) early) h =
      let closed = Closes-cancelled t.closes same in
      rw (asked, empty, closed, text_eq_refl agui_cancelled, t.request.continuation_id) refl
  entry_command-moved thread_id i c d contract e k event t same (cancelled_before at p asked) h =
      absurd (cc (t.was_pending, ap status_of p))
  entry_command-moved thread_id i c d contract e k event t same
        (resumes payload other p (asked, given) (parsed, kind) early allowed) h =
      let closed = Closes-resumed t.closes same in
      let one : other ≡ contract = ground arith in
      let key = resume_idempotency_key env.sha256 thread_id c.continuation_id payload in
      rw
        (
          asked,
          given,
          closed,
          t.request.continuation_id,
          sym one,
          kind,
          text_eq_refl key,
          text_eq_refl (canonical_json payload),
        )
        refl
  entry_command-moved thread_id i c d contract e k event t same
        (resumed_before payload recorded at p agree asked) h =
      absurd (cc (t.was_pending, ap status_of p))

  command_for-Ran :
      (thread_id : Text) (i : AguiReceiptInterrupt) (k : AguiResumeCommand)
      (c d : ContinuationEnvelope) (e : AguiResumeEntry)
      → command_for env options thread_id i c e ≡ ok k
      → Ran k c d
      → command_for env later thread_id i d e ≡ ok k
  unfolding command_for
  command_for-Ran thread_id i k c d e h (unmoved closed) =
      let (contract, parsed, h1) = >>=-eq-ok (payload_or _ (parse_payload c.payload)) _ h in
      rw parsed (entry_command_closed thread_id i c contract e.payload e.status closed ∙ h1)
  command_for-Ran thread_id i k c d e h (moved event t same) =
      let (contract, parsed, h1) = >>=-eq-ok (payload_or _ (parse_payload c.payload)) _ h in
      let contracted = payload_or-ok _ _ parsed in
      let after : payload_or invalid_input (parse_payload d.payload) ≡ ok contract =
        ap (λ p. payload_or invalid_input (parse_payload p)) t.request.payload ∙ parsed in
      rw after (
        entry_command-moved thread_id i c d contract e k event t same
          (entry_command-Answers env options thread_id i c contract e e.payload e.status refl refl
            contracted h1)
          contracted)

  commands_for-AllRan :
      (thread_id : Text) (before after : List ContinuationEnvelope) (entries : List AguiResumeEntry)
      (is : List AguiReceiptInterrupt) (ks : List AguiResumeCommand)
      → commands_for env options thread_id before entries is ≡ ok ks
      → AllRan before after is ks
      → commands_for env later thread_id after entries is ≡ ok ks
  unfolding commands_for
  commands_for-AllRan thread_id before after entries is ks h none_ran = refl
  commands_for-AllRan thread_id before after entries is ks h
        (ran {i} {is = js} {k} {ks = ls} c d hc hd r rest) =
      let (b, hb, h1) = >>=-eq-ok (found _ (find i.continuation_id before)) _ h in
      let (e, he, h2) = >>=-eq-ok (found _ (find_entry i.continuation_id entries)) _ h1 in
      let (l, hl, h3) = >>=-eq-ok (command_for env options thread_id i b e) _ h2 in
      let (ms, hms, h4) = >>=-eq-ok (commands_for env options thread_id before entries js) _ h3 in
      let same : b ≡ c = ground (arith, found-ok _ _ hb, hc) in
      let first : l ≡ k = cc h4 in
      let others : ms ≡ ls = cc h4 in
      let again = command_for-Ran thread_id i k c d e (rw (← same, ← first) hl) r in
      let rest' =
        commands_for-AllRan thread_id before after entries js ls (rw (← others) hms) rest in
      rw (hd, he, again, rest') refl

  from_parsed-AllRan :
      (parsed_input : Option RunAgentInput) (raw_receipt : Option Json) (raw : Json)
      (before after : List ContinuationEnvelope) (ks : List AguiResumeCommand)
      (receipt : AguiInterruptReceipt)
      → from_parsed env options parsed_input raw_receipt before ≡ ok ks
      → raw_receipt ≡ some raw
      → validate_receipt env.sha256 env.is_offset_datetime raw ≡ ok receipt
      → ids_of after ≡ ids_of before
      → AllRan before after receipt.descriptor.interrupts ks
      → require_clock later.now ≡ ok tt
      → from_parsed env later parsed_input raw_receipt after ≡ ok ks
  unfolding from_parsed validate_current_cohort
  from_parsed-AllRan parsed_input raw_receipt raw before after ks receipt h given sealed ids r
        clock =
      let a = from_parsed-IsAccepted env options parsed_input raw_receipt before ks h in
      let d = receipt.descriptor in
      let same : a.receipt ≡ receipt = ground (arith, a.sealed, a.given) in
      let (_, whole, checked) = >>=-eq-ok (require (is_whole a.receipt before) _) _ a.whole in
      let count : length after ≡ length before =
        sym (length-map (λ (c : ContinuationEnvelope). c.continuation_id) after)
        ∙ ap length ids
        ∙ length-map (λ (c : ContinuationEnvelope). c.continuation_id) before in
      let size : is_whole receipt after ≡ true = rw (ids, count, ← same) (require-ok _ _ whole) in
      let still =
        check_issued-AllRan env.sha256 d.thread_id before after d.interrupts ks
          (rw (← same) checked) r in
      let covered : covers d.interrupts a.entries ≡ true = rw (← same) a.covered in
      let commanded : commands_for env options d.thread_id before a.entries d.interrupts ≡ ok ks =
        rw (← same) a.commanded in
      rw
        (
          a.parsed,
          given,
          sealed,
          same,
          size,
          still,
          text_eq_refl d.thread_id,
          a.distinct,
          covered,
          clock,
        )
        (commands_for-AllRan d.thread_id before after a.entries d.interrupts ks commanded r)

  -- A call that was accepted is accepted again after its commands ran on the continuations of the
  -- cohort, all or some of them having been closed before, at any valid time and under any policy of
  -- the host: with the same receipt, and an input that the schema parses as the same batch, it gives
  -- the same commands, provided that the values of the second call, in which the continuations hold
  -- the answers, pass the preflight.
  pub from_agui_run_agent_input-AllRan :
      (a b : Arguments) (raw : Json) (receipt : AguiInterruptReceipt) (ks : List AguiResumeCommand)
      → from_agui_run_agent_input env options a ≡ ok ks
      → a.raw_receipt ≡ some raw
      → b.raw_receipt ≡ some raw
      → validate_receipt env.sha256 env.is_offset_datetime raw ≡ ok receipt
      → env.parse_input b.memory b.input ≡ env.parse_input a.memory a.input
      → ids_of b.continuations ≡ ids_of a.continuations
      → AllRan a.continuations b.continuations receipt.descriptor.interrupts ks
      → require_clock later.now ≡ ok tt
      → preflight
          (shape b.memory)
          (roots b)
          (parse_input_limits later.max_input_depth later.max_input_nodes)
        ≡ true
      → from_agui_run_agent_input env later b ≡ ok ks
  unfolding from_agui_run_agent_input
  from_agui_run_agent_input-AllRan a b raw receipt ks h given again sealed same ids r clock safe =
      let limits = parse_input_limits options.max_input_depth options.max_input_nodes in
      let (_, _, h1) = >>=-eq-ok (require (preflight (shape a.memory) (roots a) limits) _) _ h in
      rw (safe, same, again)
        (from_parsed-AllRan (env.parse_input a.memory a.input) (some raw) raw a.continuations
          b.continuations ks receipt (rw given at h1) refl sealed ids r clock)

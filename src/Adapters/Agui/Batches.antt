-- ===== src/Adapters/Agui/Batches.antt =====
-- What an accepted batch of `fromAguiRunAgentInput` means, and what the service answers to the
-- commands of one that was run before.
use pausemesh.Prelude.{
  ℕ, ◌≤◌, Bool, ◌==◌, length, ◌≡◌, refl, true, Option, none, some, List, [], ok, >>=-eq-ok,
  Option-cases, inl, inr, arith,
}
use pausemesh.Prelude.Text.{Text, set_size, text_eq, text_eq_iff}
use pausemesh.Json.{Json}
use pausemesh.Domain.Types.{ContinuationEnvelope}
use pausemesh.Adapters.Protocol.{require, require-ok}
use pausemesh.Adapters.Agui.Preflight.{
  Heap, Value, AguiInputLimits, parse_input_limits, passes_input_preflight,
}
use pausemesh.Adapters.Agui.Receipts.{AguiInterruptReceipt, cohort_id, invalid_input, parse_receipt}
use pausemesh.Adapters.Agui.Issuing.{AguiResumeEntry}
use pausemesh.Adapters.Agui.Cohorts.{found, issued_ids, validate_current_cohort, validate_receipt}
use pausemesh.Adapters.Agui.Preflight.Unfolding.{UnfoldsAll}
use pausemesh.Adapters.Agui.Preflight.Complete.{passes_input_preflight_iff}
use pausemesh.Adapters.Agui.Preflight.Memory.{Memory, Reads, readable, unreadable, holds, shape}
use pausemesh.Adapters.Agui.Matching.{IsCohort, validate_current_cohort-IsCohort}
use pausemesh.Adapters.Agui.Commands.{found-ok, AllAnswers, commands_for-AllAnswers}
use pausemesh.Adapters.Agui.Resuming.{
  AguiResumeCommand, AguiResumeValidationOptions, Arguments, Environment, RunAgentInput, roots,
  collect_entries, commands_for, covers, from_parsed, from_agui_run_agent_input, require_clock,
  preflight, passes,
}

Reads-holds :
    (memory : Memory) (v : Value) {o : Option Json} {json : Json}
    → Reads memory v o
    → o ≡ some json
    → holds memory v json ≡ true
Reads-holds memory v (readable h) e = ground (arith, h)
Reads-holds memory v (unreadable h) e = absurd (cc e)

validate_receipt-ok :
    (sha256 : Text → Text) (is_offset_datetime : Text → Bool) (raw : Json)
    {receipt : AguiInterruptReceipt}
    → validate_receipt sha256 is_offset_datetime raw ≡ ok receipt
    → (parse_receipt is_offset_datetime raw ≡ ok receipt)
      × (receipt.cohort_id ≡ cohort_id sha256 receipt.descriptor)
unfolding validate_receipt
validate_receipt-ok sha256 is_offset_datetime raw h =
    let (r, parsed, h1) = >>=-eq-ok (parse_receipt is_offset_datetime raw) _ h in
    let (_, sealed, h2) =
      >>=-eq-ok (require (text_eq r.cohort_id (cohort_id sha256 r.descriptor)) _) _ h1 in
    let ids = issued_ids r.descriptor.interrupts in
    let (_, _, h3) =
      >>=-eq-ok (require (set_size ids == length r.descriptor.interrupts) invalid_input) _ h2 in
    let same : r ≡ _ = cc h3 in
    let own = (text_eq_iff r.cohort_id (cohort_id sha256 r.descriptor)).0 (require-ok _ _ sealed) in
    (rw same at parsed, rw same at own)

module _ (env : Environment) (options : AguiResumeValidationOptions) where
  -- The parts of a batch that was accepted.
  pub record IsAccepted (parsed_input : Option RunAgentInput) (raw_receipt : Option Json)
      (current : List ContinuationEnvelope) (ks : List AguiResumeCommand) : Type 0 where
    pub raw : Json
    pub receipt : AguiInterruptReceipt
    pub entries : List AguiResumeEntry
    pub parsed :
        parsed_input
        ≡ some (record { thread_id = receipt.descriptor.thread_id; resume = some entries })
    pub given : raw_receipt ≡ some raw
    pub sealed : validate_receipt env.sha256 env.is_offset_datetime raw ≡ ok receipt
    pub whole : validate_current_cohort env.sha256 receipt current ≡ ok tt
    pub distinct : collect_entries [] entries ≡ ok tt
    pub covered : covers receipt.descriptor.interrupts entries ≡ true
    pub clocked : require_clock options.now ≡ ok tt
    pub commanded :
        commands_for env options receipt.descriptor.thread_id current entries
          receipt.descriptor.interrupts
        ≡ ok ks

  pub from_parsed-IsAccepted :
      (parsed_input : Option RunAgentInput) (raw_receipt : Option Json)
      (current : List ContinuationEnvelope) (ks : List AguiResumeCommand)
      → from_parsed env options parsed_input raw_receipt current ≡ ok ks
      → IsAccepted parsed_input raw_receipt current ks
  unfolding from_parsed
  from_parsed-IsAccepted parsed_input raw_receipt current ks h =
      let (parsed, hp, h1) = >>=-eq-ok (found _ parsed_input) _ h in
      let (raw, hw, h1) = >>=-eq-ok (found _ raw_receipt) _ h1 in
      let (receipt, hr, h2) =
        >>=-eq-ok (validate_receipt env.sha256 env.is_offset_datetime raw) _ h1 in
      let (_, hc, h3) = >>=-eq-ok (validate_current_cohort env.sha256 receipt current) _ h2 in
      let (_, ht, h4) =
        >>=-eq-ok (require (text_eq parsed.thread_id receipt.descriptor.thread_id) _) _ h3 in
      let (entries, he, h5) = >>=-eq-ok (found _ parsed.resume) _ h4 in
      let (_, hd, h6) = >>=-eq-ok (collect_entries [] entries) _ h5 in
      let (_, hs, h7) = >>=-eq-ok (require (covers receipt.descriptor.interrupts entries) _) _ h6 in
      let (_, hn, h8) = >>=-eq-ok (require_clock options.now) _ h7 in
      let thread =
        (text_eq_iff parsed.thread_id receipt.descriptor.thread_id).0 (require-ok _ _ ht) in
      let resume = found-ok _ _ he in
      record {
        raw = raw;
        receipt = receipt;
        entries = entries;
        parsed = ground (arith, found-ok _ _ hp);
        given = found-ok _ _ hw;
        sealed = hr;
        whole = hc;
        distinct = hd;
        covered = require-ok _ _ hs;
        clocked = hn;
        commanded = h8;
      }

  preflight-ok :
      (heap : Heap) (roots : List Value) (o : Option AguiInputLimits)
      → preflight heap roots o ≡ true
      → (limits : AguiInputLimits) × (o ≡ some limits)
        × (passes_input_preflight heap limits roots ≡ some true)
  unfolding preflight passes
  preflight-ok heap roots none h = absurd (cc h)
  preflight-ok heap roots (some limits) h =
      elim (Option-cases (passes_input_preflight heap limits roots)) [
        | inl missing ↦ absurd (cc (rw missing at h))
        | inr (b, e) ↦ (limits, refl, ground arith)
      ]

  -- What an accepted call was given: values that unfold within the limits, the receipt that its
  -- schema reads from them, under the digest of its descriptor, the continuations of its cohort, and
  -- an input of its thread, whose entries the commands answer.
  pub record IsBatch (a : Arguments) (ks : List AguiResumeCommand) : Type 0 where
    pub limits : AguiInputLimits
    pub limited : parse_input_limits options.max_input_depth options.max_input_nodes ≡ some limits
    pub nodes : ℕ
    pub unfolds : UnfoldsAll (shape a.memory) limits [] 0 (roots a) nodes
    pub bound : nodes ≤ limits.max_input_nodes
    pub raw : Json
    pub read : holds a.memory a.receipt raw ≡ true
    pub receipt : AguiInterruptReceipt
    pub parsed : parse_receipt env.is_offset_datetime raw ≡ ok receipt
    pub sealed : receipt.cohort_id ≡ cohort_id env.sha256 receipt.descriptor
    pub cohort : IsCohort env.sha256 receipt a.continuations
    pub entries : List AguiResumeEntry
    pub input :
        env.parse_input a.memory a.input
        ≡ some (record { thread_id = receipt.descriptor.thread_id; resume = some entries })
    pub answers :
        AllAnswers env options receipt.descriptor.thread_id a.continuations entries
          receipt.descriptor.interrupts ks

  -- In an accepted call, the three values passed to it unfold together to finite trees within the
  -- limits; the receipt is the one that its schema reads from the second of them, and bears the
  -- digest of what it contains; the continuations are as many as were issued, distinct, and for each
  -- issued interrupt one of them has its identifier, the thread, the deadline and the payload of its
  -- issuance, at the version of its issuance while pending and at the next one when closed; the
  -- input names the thread of the receipt; and the commands answer the entries of the batch, one for
  -- each issued interrupt.
  pub from_agui_run_agent_input-IsBatch :
      (a : Arguments) (ks : List AguiResumeCommand)
      → from_agui_run_agent_input env options a ≡ ok ks
      → IsBatch a ks
  unfolding from_agui_run_agent_input
  from_agui_run_agent_input-IsBatch a ks h =
      let limits = parse_input_limits options.max_input_depth options.max_input_nodes in
      let (_, safe, h1) = >>=-eq-ok (require (preflight (shape a.memory) (roots a) limits) _) _ h in
      let b =
        from_parsed-IsAccepted (env.parse_input a.memory a.input) a.raw_receipt a.continuations ks
          h1 in
      let (l, limited, passed) =
        preflight-ok (shape a.memory) (roots a) limits (require-ok _ _ safe) in
      let (n, unfolds, bound) =
        (passes_input_preflight_iff (shape a.memory) l (roots a)).0 passed in
      let (parsed, sealed) = validate_receipt-ok env.sha256 env.is_offset_datetime b.raw b.sealed in
      record {
        limits = l;
        limited = limited;
        nodes = n;
        unfolds = unfolds;
        bound = bound;
        raw = b.raw;
        read = Reads-holds a.memory a.receipt a.receipt_read b.given;
        receipt = b.receipt;
        parsed = parsed;
        sealed = sealed;
        cohort = validate_current_cohort-IsCohort env.sha256 b.receipt a.continuations b.whole;
        entries = b.entries;
        input = b.parsed;
        answers =
            commands_for-AllAnswers env options b.receipt.descriptor.thread_id a.continuations
              b.entries b.receipt.descriptor.interrupts ks b.commanded;
      }

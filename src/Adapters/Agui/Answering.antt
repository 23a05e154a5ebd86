-- ===== src/Adapters/Agui/Answering.antt =====
-- An issued cohort can be answered.
use pausemesh.Prelude.{
  sym, ◌∙◌, Option, Bool-cases, inl, inr, ◌≡◌, refl, true, false, none, some, List, [], ◌∷◌, map,
  all, length, length-map, All, ok, ==_iff, arith,
}
use pausemesh.Prelude.Text.{Text, text_eq, text_eq_refl, text_eq→eq, apart, is_member}
use pausemesh.Json.{Json}
use pausemesh.Domain.Types.{ContinuationId, ContinuationEnvelope}
use pausemesh.Adapters.Payloads.{input}
use pausemesh.Adapters.Agui.Receipts.{receipt_json, resume_idempotency_key}
use pausemesh.Adapters.Agui.Issuing.{
  AguiRunBinding, AguiInterruptIssuance, AguiResumeEntry, ContinuationPayload, ResumeStatus,
  issue_agui_interrupts, issued_of, parse_payload,
}
use pausemesh.Adapters.Agui.Cohorts.{ids_of}
use pausemesh.Adapters.Agui.Distinct.{Distinct, set_size-Distinct, IsFound, All-IsFound}
use pausemesh.Adapters.Agui.Reordering.{
  Reordered, is_member-Reordered, Distinct-Reordered, length-Reordered,
}
use pausemesh.Adapters.Agui.Issued.{
  IsIssuable, issue_agui_interrupts-IsIssued, issue_agui_interrupts-validate, issued_ids-issued_of,
}
use pausemesh.Adapters.Agui.Resuming.{
  AguiResumeCommand, AguiResumeValidationOptions, Environment, collect_entries, command_for,
  commands_for, covers, entry_command, find_entry, from_parsed, is_over, policy_check,
  require_clock, resume_check, Arguments, RunAgentInput, from_agui_run_agent_input, preflight,
  roots,
}
use pausemesh.Adapters.Agui.Preflight.{parse_input_limits}
use pausemesh.Adapters.Agui.Preflight.Memory.{shape}

-- The continuation waits for input that no schema restricts.
pub record IsAskingInput (c : ContinuationEnvelope) : Type 0 where
  pub contract : ContinuationPayload
  pub parsed : parse_payload c.payload ≡ some contract
  pub kind : contract.kind ≡ input
  pub unrestricted : contract.response_schema ≡ none

-- The continuation has not expired.
unfoldable pub IsDue : Environment → AguiResumeValidationOptions → ContinuationEnvelope → Type 0
IsDue env options c = is_over env options c ≡ false

module _ (answer : ContinuationEnvelope → Json) where
  -- The entry that resolves an interrupt with the answer to its continuation.
  abbrev pub entry_of : ContinuationEnvelope → AguiResumeEntry
  entry_of c = record {
    interrupt_id = c.continuation_id;
    status = ResumeStatus.resolved;
    payload = some (answer c);
  }

  IsEntered : List ContinuationEnvelope → ContinuationEnvelope → Type 0
  IsEntered cs c = find_entry c.continuation_id (map entry_of cs) ≡ some (entry_of c)

  later_entry :
      (c : ContinuationEnvelope) (cs ds : List ContinuationEnvelope)
      → is_member c.continuation_id (ids_of ds) ≡ false
      → All (IsEntered cs) ds
      → All (IsEntered (c ∷ cs)) ds
  unfolding is_member IsEntered find_entry
  later_entry c cs [] fresh h = tt
  later_entry c cs (d ∷ ds) fresh (here, h) =
      let other : text_eq c.continuation_id d.continuation_id ≡ false = ground arith in
      let rest : is_member c.continuation_id (ids_of ds) ≡ false = ground arith in
      (rw (apart d.continuation_id c.continuation_id other) here, later_entry c cs ds rest h)

  All-IsEntered : (cs : List ContinuationEnvelope) → Distinct (ids_of cs) → All (IsEntered cs) cs
  unfolding Distinct IsEntered find_entry
  All-IsEntered [] d = tt
  All-IsEntered (c ∷ cs) (fresh, d) =
      (rw (text_eq_refl c.continuation_id) refl, later_entry c cs cs fresh (All-IsEntered cs d))

  IsNew : List ContinuationId → ContinuationEnvelope → Type 0
  IsNew ids c = is_member c.continuation_id ids ≡ false

  still-IsNew :
      (c : ContinuationEnvelope) (ids : List ContinuationId) (ds : List ContinuationEnvelope)
      → is_member c.continuation_id (ids_of ds) ≡ false
      → All (IsNew ids) ds
      → All (IsNew (c.continuation_id ∷ ids)) ds
  unfolding is_member IsNew
  still-IsNew c ids [] fresh h = tt
  still-IsNew c ids (d ∷ ds) fresh (here, h) =
      let other : text_eq c.continuation_id d.continuation_id ≡ false = ground arith in
      let rest : is_member c.continuation_id (ids_of ds) ≡ false = ground arith in
      (rw (apart d.continuation_id c.continuation_id other) here, still-IsNew c ids ds rest h)

  collected :
      (ids : List ContinuationId) (cs : List ContinuationEnvelope)
      → All (IsNew ids) cs
      → Distinct (ids_of cs)
      → collect_entries ids (map entry_of cs) ≡ ok tt
  unfolding collect_entries Distinct IsNew
  collected ids [] new d = refl
  collected ids (c ∷ cs) (here, new) (fresh, d) =
      rw here (collected (c.continuation_id ∷ ids) cs (still-IsNew c ids cs fresh new) d)

  All-IsNew : (cs : List ContinuationEnvelope) → All (IsNew []) cs
  unfolding is_member IsNew
  All-IsNew [] = tt
  All-IsNew (c ∷ cs) = (refl, All-IsNew cs)

  -- Whatever identifiers stand before.
  all_members :
      (ids : List ContinuationId) (cs : List ContinuationEnvelope)
      → ((id : ContinuationId) → is_member id (ids_of cs) ≡ true → is_member id ids ≡ true)
      → all (λ (e : AguiResumeEntry). is_member e.interrupt_id ids) (map entry_of cs) ≡ true
  unfolding is_member
  all_members ids [] h = refl
  all_members ids (c ∷ cs) h =
      let here = h c.continuation_id (rw (text_eq_refl c.continuation_id) refl) in
      let rest = all_members ids cs (λ id m. h id (ground arith)) in rw (here, rest) refl

  -- The entries are read in any order.
  find_entry-Reordered :
      {cs ds : List ContinuationEnvelope} (id : ContinuationId)
      → Reordered cs ds
      → Distinct (ids_of cs)
      → find_entry id (map entry_of cs) ≡ find_entry id (map entry_of ds)
  unfolding find_entry Distinct is_member
  find_entry-Reordered id Reordered.done d = refl
  find_entry-Reordered id (Reordered.keep a p) (fresh, d) = rw (find_entry-Reordered id p d) refl
  find_entry-Reordered id (Reordered.swap a b l) (fresh, d) =
      elim (Bool-cases (text_eq id a.continuation_id)) [
        | inl first ↦
            let same = text_eq→eq id a.continuation_id first in
            let other : text_eq a.continuation_id b.continuation_id ≡ false = ground arith in
            let second : text_eq id b.continuation_id ≡ false = rw same other in
            rw (first, second) refl
        | inr other ↦ rw other refl
      ]
  find_entry-Reordered id (Reordered.trans p q) d =
      find_entry-Reordered id p d ∙ find_entry-Reordered id q (Distinct-Reordered p d)

  All-IsEntered-Reordered :
      {cs ds : List ContinuationEnvelope} (xs : List ContinuationEnvelope)
      → Reordered cs ds
      → Distinct (ids_of cs)
      → All (IsEntered cs) xs
      → All (IsEntered ds) xs
  unfolding IsEntered
  All-IsEntered-Reordered [] p d h = tt
  All-IsEntered-Reordered (x ∷ xs) p d (here, h) =
      (sym (find_entry-Reordered x.continuation_id p d) ∙ here, All-IsEntered-Reordered xs p d h)

  module _ (env : Environment) (options : AguiResumeValidationOptions) (thread_id : Text) where
    abbrev pub command_of : ContinuationEnvelope → AguiResumeCommand
    command_of c =
        AguiResumeCommand.resume c.continuation_id
          (resume_idempotency_key env.sha256 thread_id c.continuation_id (answer c)) (answer c)

    command_for-entry_of :
        (c : ContinuationEnvelope)
        → IsIssuable thread_id c
        → IsAskingInput c
        → IsDue env options c
        → command_for env options thread_id (issued_of env.sha256 c) c (entry_of c)
          ≡ ok (command_of c)
    unfolding command_for entry_command resume_check policy_check IsDue
    command_for-entry_of c p asking early =
        rw (asking.parsed, asking.kind, p.pending, early, asking.unrestricted) refl

    All-commands :
        (current cs all : List ContinuationEnvelope)
        → All (IsFound current) cs
        → All (IsEntered all) cs
        → All (IsIssuable thread_id) cs
        → All IsAskingInput cs
        → All (IsDue env options) cs
        → commands_for env options thread_id current
            (map entry_of all)
            (map (issued_of env.sha256) cs)
          ≡ ok (map command_of cs)
    unfolding commands_for IsEntered
    All-commands current [] all f e p q d = refl
    All-commands current (c ∷ cs) all (hf, f) (he, e) (hp, p) (hq, q) (hd, d) =
        rw (hf, he, command_for-entry_of c hp hq hd, All-commands current cs all f e p q d) refl

module _ (env : Environment) (options : AguiResumeValidationOptions) where
  from_parsed-issue_agui_interrupts :
      (answer : ContinuationEnvelope → Json) (cs ds : List ContinuationEnvelope)
      (binding : AguiRunBinding) (issuance : AguiInterruptIssuance)
      (parsed_input : Option RunAgentInput)
      → Reordered cs ds
      → issue_agui_interrupts env.is_offset_datetime env.sha256 cs binding ≡ ok issuance
      → parsed_input
        ≡ some (record { thread_id = binding.thread_id; resume = some (map (entry_of answer) ds) })
      → All IsAskingInput cs
      → All (IsDue env options) cs
      → require_clock options.now ≡ ok tt
      → from_parsed env options parsed_input (some (receipt_json issuance.receipt)) cs
        ≡ ok (map (command_of answer env options binding.thread_id) cs)
  unfolding from_parsed covers
  from_parsed-issue_agui_interrupts answer cs ds binding issuance parsed_input p h parsed asking due
        clock =
      let i =
        issue_agui_interrupts-IsIssued env.is_offset_datetime env.sha256 cs binding issuance h in
      let (sealed, whole) =
        issue_agui_interrupts-validate env.is_offset_datetime env.sha256 cs binding issuance h in
      let ids = issued_ids-issued_of env.is_offset_datetime env.sha256 cs in
      let size = set_size-Distinct (ids_of cs) i.distinct in
      let count = length-map (entry_of answer) ds ∙ sym (length-Reordered p) in
      let count_ids = length-map (λ (c : ContinuationEnvelope). c.continuation_id) cs in
      rw
        (
          parsed,
          sealed,
          whole,
          i.thread,
          text_eq_refl binding.thread_id,
          collected answer [] ds (All-IsNew answer ds) (Distinct-Reordered p i.distinct),
          i.recorded,
          ids,
          size,
          count,
          count_ids,
          (==_iff (length cs) (length cs)).1 refl,
          all_members answer (ids_of cs) ds (λ id m. is_member-Reordered id p ∙ m),
          clock,
        )
        (All-commands answer env options binding.thread_id cs cs ds (All-IsFound cs i.distinct)
          (All-IsEntered-Reordered answer cs p i.distinct (All-IsEntered answer cs i.distinct))
          i.issuable asking due)

  -- A cohort that was issued, of continuations that wait for input that no schema restricts, is
  -- resumed by a batch that answers each of them once, in any order, before they expire: a call with
  -- the receipt of the issuance and the issued continuations is accepted, provided that its values
  -- pass the preflight and that the clock runs, and gives, in the order of the issuance, for each
  -- continuation the command to resume it with its answer.
  pub from_agui_run_agent_input-issue_agui_interrupts :
      (answer : ContinuationEnvelope → Json) (ds : List ContinuationEnvelope)
      (binding : AguiRunBinding) (issuance : AguiInterruptIssuance) (a : Arguments)
      → Reordered a.continuations ds
      → issue_agui_interrupts env.is_offset_datetime env.sha256 a.continuations binding
        ≡ ok issuance
      → a.raw_receipt ≡ some (receipt_json issuance.receipt)
      → env.parse_input a.memory a.input
        ≡ some (record { thread_id = binding.thread_id; resume = some (map (entry_of answer) ds) })
      → All IsAskingInput a.continuations
      → All (IsDue env options) a.continuations
      → require_clock options.now ≡ ok tt
      → preflight
          (shape a.memory)
          (roots a)
          (parse_input_limits options.max_input_depth options.max_input_nodes)
        ≡ true
      → from_agui_run_agent_input env options a
        ≡ ok (map (command_of answer env options binding.thread_id) a.continuations)
  unfolding from_agui_run_agent_input
  from_agui_run_agent_input-issue_agui_interrupts answer ds binding issuance a p h given parsed
        asking due clock safe =
      rw (safe, given)
        (from_parsed-issue_agui_interrupts answer a.continuations ds binding issuance
          (env.parse_input a.memory a.input) p h parsed asking due clock)

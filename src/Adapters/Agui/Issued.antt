-- ===== src/Adapters/Agui/Issued.antt =====
-- What is issued is current: its receipt is accepted, with the continuations it was issued for.
use pausemesh.Prelude.{
  ◌≡◌, refl, ap, ◌∙◌, Bool, true, false, not, ◌&&◌, Option, none, some, List, [], ◌∷◌, map, length,
  All, ok, >>=-eq-ok, length-map, ◌==◌, ==_iff, Result-cases, inl, inr, arith,
}
use pausemesh.Prelude.Text.{Text, text_eq, text_eq_refl, text_eq_iff, apart, is_member}
use pausemesh.Domain.Types.{ContinuationId, ContinuationEnvelope, Lifecycle}
use pausemesh.Adapters.Identifiers.{is_opaque_id}
use pausemesh.Adapters.Protocol.{require, require-ok}
use pausemesh.Adapters.Agui.Receipts.{
  AguiInterruptReceipt, hash_json, cohort_id, receipt_json, parse_receipt,
}
use pausemesh.Adapters.Agui.Receipts.Printed.{parse_receipt-receipt_json}
use pausemesh.Adapters.Agui.Issuing.{
  AguiRunBinding, AguiInterruptIssuance, Projected, ContinuationPayload, project, parse_payload,
  payload_or, require_pending, parse_binding, some_of, accepted, issued_of, descriptor_of,
  receipt_of, issue_agui_interrupts,
}
use pausemesh.Adapters.Agui.Cohorts.{
  ids_of, issued_ids, check_issued, validate_receipt, validate_current_cohort,
}
use pausemesh.Adapters.Agui.Distinct.{Distinct, set_size-Distinct, IsFound, All-IsFound}

-- A continuation that can be issued to a thread.
pub record IsIssuable (thread_id : Text) (c : ContinuationEnvelope) : Type 0 where
  pub hash : Text
  pub pending : c.lifecycle ≡ Lifecycle.pending hash
  pub own : c.correlation_id ≡ thread_id
  pub contract : ContinuationPayload
  pub parsed : parse_payload c.payload ≡ some contract

pending_of :
    (l : Lifecycle) → require_pending l ≡ ok tt → (hash : Text) × (l ≡ Lifecycle.pending hash)
unfolding require_pending
pending_of (Lifecycle.pending hash) h = (hash, refl)
pending_of (Lifecycle.resumed at key payload) h = absurd (cc h)
pending_of (Lifecycle.cancelled at reason) h = absurd (cc h)
pending_of (Lifecycle.expired at) h = absurd (cc h)

pub payload_or-ok :
    {E : Type 0} (code : E) (o : Option ContinuationPayload) {p : ContinuationPayload}
    → payload_or code o ≡ ok p
    → o ≡ some p
payload_or-ok code none h = absurd (cc h)
payload_or-ok code (some q) h = ground arith

IsNew : List ContinuationId → ContinuationEnvelope → Type 0
IsNew ids c = is_member c.continuation_id ids ≡ false

IsNew-apart :
    (c : ContinuationEnvelope) (ids : List ContinuationId) (cs : List ContinuationEnvelope)
    → All (IsNew (c.continuation_id ∷ ids)) cs
    → (is_member c.continuation_id (ids_of cs) ≡ false) × All (IsNew ids) cs
unfolding is_member IsNew
IsNew-apart c ids [] h = (refl, tt)
IsNew-apart c ids (d ∷ cs) (fresh, h) =
    let (rest, older) = IsNew-apart c ids cs h in
    let other : text_eq d.continuation_id c.continuation_id ≡ false = ground arith in
    let older_d : is_member d.continuation_id ids ≡ false = ground arith in
    (rw (apart c.continuation_id d.continuation_id other) rest, (older_d, older))

project_step :
    (binding : AguiRunBinding) (ids : List ContinuationId) (c : ContinuationEnvelope)
    (cs : List ContinuationEnvelope) {ps : List Projected}
    → project binding ids (c ∷ cs) ≡ ok ps
    → IsIssuable binding.thread_id c
      × IsNew ids c
      × ((payload : ContinuationPayload) × (rest : List Projected) × (project binding
              (c.continuation_id ∷ ids)
              cs
            ≡ ok rest)
          × (ps ≡ (c, payload) ∷ rest))
unfolding project IsNew
project_step binding ids c cs h =
    let (_, pending, h1) = >>=-eq-ok (require_pending c.lifecycle) _ h in
    let (_, own, h2) = >>=-eq-ok (require (text_eq c.correlation_id binding.thread_id) _) _ h1 in
    let (_, id, h3) =
      >>=-eq-ok
        (require (is_opaque_id c.continuation_id && not (is_member c.continuation_id ids)) _) _
        h2 in
    let (payload, parsed, h4) = >>=-eq-ok (payload_or _ (parse_payload c.payload)) _ h3 in
    let (rest, projected, h5) = >>=-eq-ok (project binding (c.continuation_id ∷ ids) cs) _ h4 in
    let (hash, e) = pending_of c.lifecycle pending in
    let ids_ok = require-ok _ _ id in
    (
      record {
        hash = hash;
        pending = e;
        own = (text_eq_iff c.correlation_id binding.thread_id).0 (require-ok _ _ own);
        contract = payload;
        parsed = payload_or-ok _ _ parsed;
      },
      ground arith,
      (payload, rest, projected, ground arith),
    )

project_lem :
    (binding : AguiRunBinding) (ids : List ContinuationId) (cs : List ContinuationEnvelope)
    {ps : List Projected}
    → project binding ids cs ≡ ok ps
    → All (IsIssuable binding.thread_id) cs × Distinct (ids_of cs) × All (IsNew ids) cs
unfolding Distinct
project_lem binding ids [] h = (tt, tt, tt)
project_lem binding ids (c ∷ cs) h =
    let (issuable, first, (_, _, projected, _)) = project_step binding ids c cs h in
    let (others, distinct, new) = project_lem binding (c.continuation_id ∷ ids) cs projected in
    let (fresh, older) = IsNew-apart c ids cs new in
    ((issuable, others), (fresh, distinct), (first, older))

projected_of :
    {A : Type 0} (f : ContinuationEnvelope → A) (binding : AguiRunBinding)
    (ids : List ContinuationId) (cs : List ContinuationEnvelope) {ps : List Projected}
    → project binding ids cs ≡ ok ps
    → map (λ (p : Projected). f p.0) ps ≡ map f cs
unfolding project
projected_of f binding ids [] h = ground arith
projected_of f binding ids (c ∷ cs) h =
    let (_, _, (_, rest, projected, e)) = project_step binding ids c cs h in
    rw (e, projected_of f binding (c.continuation_id ∷ ids) cs projected) refl

module _ (is_offset_datetime : Text → Bool) (sha256 : Text → Text) where
  All-issued :
      (thread_id : Text) (current cs : List ContinuationEnvelope)
      → All (IsFound current) cs
      → All (IsIssuable thread_id) cs
      → check_issued sha256 thread_id current (map (issued_of sha256) cs) ≡ ok tt
  unfolding check_issued
  All-issued thread_id current [] found issuable = refl
  All-issued thread_id current (c ∷ cs) (here, found) (p, issuable) =
      let same : (c.version == c.version) ≡ true = (==_iff c.version c.version).1 refl in
      rw
        (
          here,
          p.pending,
          p.own,
          text_eq_refl thread_id,
          text_eq_refl c.expires_at,
          same,
          text_eq_refl (hash_json sha256 c.payload),
        )
        (All-issued thread_id current cs found issuable)

  accepted-ok :
      (r : AguiInterruptReceipt)
      → accepted (parse_receipt is_offset_datetime (receipt_json r)) ≡ ok tt
      → parse_receipt is_offset_datetime (receipt_json r) ≡ ok r
  unfolding accepted
  accepted-ok r h = elim (Result-cases (parse_receipt is_offset_datetime (receipt_json r))) [
    | inl (s, e) ↦ e ∙ ap ok (parse_receipt-receipt_json is_offset_datetime r e)
    | inr (code, e) ↦ absurd (cc (rw e at h))
  ]

  -- What was issued: the continuations can be issued and have distinct identifiers, the receipt
  -- passes its schema and records them.
  pub record IsIssued (cs : List ContinuationEnvelope) (binding : AguiRunBinding)
      (issuance : AguiInterruptIssuance) : Type 0 where
    pub issuable : All (IsIssuable binding.thread_id) cs
    pub distinct : Distinct (ids_of cs)
    pub recorded : issuance.receipt.descriptor.interrupts ≡ map (issued_of sha256) cs
    pub thread : issuance.receipt.descriptor.thread_id ≡ binding.thread_id
    pub sealed : issuance.receipt.cohort_id ≡ cohort_id sha256 issuance.receipt.descriptor
    pub printed :
        parse_receipt is_offset_datetime (receipt_json issuance.receipt) ≡ ok issuance.receipt

  pub issue_agui_interrupts-IsIssued :
      (cs : List ContinuationEnvelope) (binding : AguiRunBinding) (issuance : AguiInterruptIssuance)
      → issue_agui_interrupts is_offset_datetime sha256 cs binding ≡ ok issuance
      → IsIssued cs binding issuance
  unfolding issue_agui_interrupts
  issue_agui_interrupts-IsIssued cs binding issuance h =
      let (_, _, h1) = >>=-eq-ok (parse_binding binding) _ h in
      let (_, _, h2) = >>=-eq-ok (some_of cs) _ h1 in
      let (ps, projected, h3) = >>=-eq-ok (project binding [] cs) _ h2 in
      let receipt = receipt_of sha256 (descriptor_of sha256 binding ps) in
      let (_, fits, h4) =
        >>=-eq-ok (accepted (parse_receipt is_offset_datetime (receipt_json receipt))) _ h3 in
      let same : receipt ≡ issuance.receipt = ground arith in
      let (issuable, distinct, _) = project_lem binding [] cs projected in
      record {
        issuable = issuable;
        distinct = distinct;
        recorded = rw (← same) (projected_of (issued_of sha256) binding [] cs projected);
        thread = rw (← same) refl;
        sealed = rw (← same) refl;
        printed = rw (← same) (accepted-ok receipt fits);
      }

  pub issued_ids-issued_of :
      (cs : List ContinuationEnvelope) → issued_ids (map (issued_of sha256) cs) ≡ ids_of cs
  issued_ids-issued_of [] = refl
  issued_ids-issued_of (c ∷ cs) = ap (λ ids. c.continuation_id ∷ ids) (issued_ids-issued_of cs)

  -- The receipt of an issued cohort, read from its JSON value, is accepted as it was issued, and so
  -- are the continuations that it was issued for.
  pub issue_agui_interrupts-validate :
      (cs : List ContinuationEnvelope) (binding : AguiRunBinding) (issuance : AguiInterruptIssuance)
      → issue_agui_interrupts is_offset_datetime sha256 cs binding ≡ ok issuance
      → (validate_receipt sha256 is_offset_datetime (receipt_json issuance.receipt)
          ≡ ok issuance.receipt)
        × (validate_current_cohort sha256 issuance.receipt cs ≡ ok tt)
  unfolding validate_receipt validate_current_cohort
  issue_agui_interrupts-validate cs binding issuance h =
      let i = issue_agui_interrupts-IsIssued cs binding issuance h in
      let size = set_size-Distinct (ids_of cs) i.distinct in
      let ids = issued_ids-issued_of cs in
      let count = length-map (issued_of sha256) cs in
      let count_ids = length-map (λ (c : ContinuationEnvelope). c.continuation_id) cs in
      let all = (==_iff (length cs) (length cs)).1 refl in
      (
        rw
            (
              i.printed,
              i.sealed,
              text_eq_refl (cohort_id sha256 issuance.receipt.descriptor),
              i.recorded,
              ids,
              size,
              count,
              count_ids,
              all,
            )
            refl,
        rw (i.recorded, i.thread, size, count_ids, count, all)
            (All-issued binding.thread_id cs cs (All-IsFound cs i.distinct) i.issuable),
      )

-- ===== src/Adapters/Agui/Matching.antt =====
-- The continuations of a cohort, by what `validateCurrentCohort` of adapters/agui/interrupt.ts checks.
use mathlib.Core.Bool.{and-eq-true_iff}
use pausemesh.Prelude.{
  ℕ, ◌+◌, ◌≡◌, ◌≢◌, refl, true, some, List, [], ◌∷◌, ok, >>=-eq-ok, ◌==◌, ==_iff, ◌↔◌, ◌⊎◌, inl,
  inr, All, length, length-map, sym, ◌∙◌, arith,
}
use pausemesh.Prelude.Text.{Text, text_eq, text_eq_iff, set_size}
use pausemesh.Domain.Types.{ContinuationEnvelope, ContinuationStatus, Lifecycle, status}
use pausemesh.Adapters.Protocol.{require, require-ok}
use pausemesh.Adapters.Agui.Receipts.{AguiReceiptInterrupt, AguiInterruptReceipt, hash_json}
use pausemesh.Adapters.Agui.Cohorts.{
  find, found, is_whole, ids_of, matches, expected_version, check_issued, validate_current_cohort,
}
use pausemesh.Adapters.Agui.Distinct.{Distinct, Distinct-set_size}
use pausemesh.Adapters.Agui.Commands.{found-ok}

pub matches_iff :
    (sha256 : Text → Text) (thread_id : Text) (i : AguiReceiptInterrupt) (c : ContinuationEnvelope)
    → (matches sha256 thread_id i c ≡ true) ↔ (
        (text_eq c.correlation_id thread_id ≡ true)
        × (text_eq c.expires_at i.expires_at ≡ true)
        × ((c.version == expected_version i.issued_version c.lifecycle) ≡ true)
        × (text_eq (hash_json sha256 c.payload) i.payload_hash ≡ true))
matches_iff sha256 thread_id i c = (λ m. ground arith, λ (a, b, v, h). rw (a, b, v) h)

module _ (sha256 : Text → Text) (thread_id : Text) (current : List ContinuationEnvelope) where
  pub check_issued-cons :
      (i : AguiReceiptInterrupt) (is : List AguiReceiptInterrupt) {c : ContinuationEnvelope}
      → check_issued sha256 thread_id current (i ∷ is) ≡ ok tt
      → find i.continuation_id current ≡ some c
      → (matches sha256 thread_id i c ≡ true) × (check_issued sha256 thread_id current is ≡ ok tt)
  unfolding check_issued
  check_issued-cons i is {c} h e =
      let (d, hd, h1) = >>=-eq-ok (found _ (find i.continuation_id current)) _ h in
      let same : d ≡ c = ground (arith, found-ok _ _ hd) in
      let (_, fits, h2) = >>=-eq-ok (require (matches sha256 thread_id i d) _) _ h1 in
      (rw (← same) (require-ok _ _ fits), h2)

-- A continuation is as old as when it was issued if it is pending, and one version older if not.
unfoldable pub IsAge : ℕ → ContinuationEnvelope → Type 0
IsAge issued c =
    (status c ≡ ContinuationStatus.pending) × (c.version ≡ issued)
    ⊎ (status c ≢ ContinuationStatus.pending) × (c.version ≡ issued + 1)

IsAge-expected :
    (issued : ℕ) (c : ContinuationEnvelope) (l : Lifecycle)
    → c.lifecycle ≡ l
    → c.version ≡ expected_version issued l
    → IsAge issued c
unfolding IsAge
IsAge-expected issued c (Lifecycle.pending hash) e v = inl (rw e refl, v)
IsAge-expected issued c (Lifecycle.resumed at key payload) e v = inr (λ p. cc (rw e at p), v)
IsAge-expected issued c (Lifecycle.cancelled at reason) e v = inr (λ p. cc (rw e at p), v)
IsAge-expected issued c (Lifecycle.expired at) e v = inr (λ p. cc (rw e at p), v)

module _ (sha256 : Text → Text) (thread_id : Text) (current : List ContinuationEnvelope) where
  -- One of the continuations is the issued one: it has the thread, the deadline and the payload of
  -- its issuance.
  pub record IsIssuedIn (i : AguiReceiptInterrupt) : Type 0 where
    pub continuation : ContinuationEnvelope
    pub present : find i.continuation_id current ≡ some continuation
    pub own : continuation.correlation_id ≡ thread_id
    pub due : continuation.expires_at ≡ i.expires_at
    pub payload : hash_json sha256 continuation.payload ≡ i.payload_hash
    pub age : IsAge i.issued_version continuation

  check_issued-All :
      (is : List AguiReceiptInterrupt)
      → check_issued sha256 thread_id current is ≡ ok tt
      → All IsIssuedIn is
  unfolding check_issued
  check_issued-All [] h = tt
  check_issued-All (i ∷ is) h =
      let (c, hc, _) = >>=-eq-ok (found _ (find i.continuation_id current)) _ h in
      let present = found-ok _ _ hc in
      let (m, rest) = check_issued-cons sha256 thread_id current i is h present in
      let (own, due, age, hash) = (matches_iff sha256 thread_id i c).0 m in
      (
        record {
          continuation = c;
          present = present;
          own = (text_eq_iff _ _).0 own;
          due = (text_eq_iff _ _).0 due;
          payload = (text_eq_iff _ _).0 hash;
          age = IsAge-expected i.issued_version c c.lifecycle refl ((==_iff _ _).0 age);
        },
        check_issued-All is rest,
      )

-- The continuations are those that were issued with the receipt, each once.
pub record IsCohort (sha256 : Text → Text) (receipt : AguiInterruptReceipt)
    (current : List ContinuationEnvelope) : Type 0 where
  pub distinct : Distinct (ids_of current)
  pub count : length current ≡ length receipt.descriptor.interrupts
  pub issued :
      All (IsIssuedIn sha256 receipt.descriptor.thread_id current) receipt.descriptor.interrupts

whole_counts :
    (receipt : AguiInterruptReceipt) (current : List ContinuationEnvelope)
    → is_whole receipt current ≡ true
    → (set_size (ids_of current) ≡ length current)
      × (set_size (ids_of current) ≡ length receipt.descriptor.interrupts)
whole_counts receipt current h =
    let (a, b) = (and-eq-true_iff _ _).0 h in ((==_iff _ _).0 a, (==_iff _ _).0 b)

pub validate_current_cohort-IsCohort :
    (sha256 : Text → Text) (receipt : AguiInterruptReceipt) (current : List ContinuationEnvelope)
    → validate_current_cohort sha256 receipt current ≡ ok tt
    → IsCohort sha256 receipt current
unfolding validate_current_cohort
validate_current_cohort-IsCohort sha256 receipt current h =
    let (_, whole, checked) = >>=-eq-ok (require (is_whole receipt current) _) _ h in
    let (sizes, enough) = whole_counts receipt current (require-ok _ _ whole) in
    record {
      distinct =
          Distinct-set_size (ids_of current)
            (sizes ∙ sym (length-map (λ (c : ContinuationEnvelope). c.continuation_id) current));
      count = sym sizes ∙ enough;
      issued =
          check_issued-All sha256 receipt.descriptor.thread_id current receipt.descriptor.interrupts
            checked;
    }

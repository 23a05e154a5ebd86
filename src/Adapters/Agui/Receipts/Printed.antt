-- ===== src/Adapters/Agui/Receipts/Printed.antt =====
-- A receipt that is read from its own JSON value is the receipt.
use pausemesh.Prelude.{
  ℕ, ◌≡◌, Bool, some, List, [], ◌∷◌, ok, >>=-eq-ok, Bool-cases, inl, inr, arith,
}
use pausemesh.Prelude.Text.{Text, text_eq}
use pausemesh.Json.{num, str, arr, Items}
use pausemesh.Json.Fields.{field, only_keys}
use pausemesh.Storage.Numerals.{decimal, read_nat-decimal}
use pausemesh.Adapters.Identifiers.{is_opaque_id, is_hex_digest}
use pausemesh.Adapters.Protocol.{require}
use pausemesh.Adapters.Agui.Receipts.{
  AguiReceiptInterrupt, AguiInterruptReceipt, entry_json, entries_json, receipt_json, text_where,
  version_of, version_where, parse_interrupt, parse_interrupts, parse_receipt, is_one, items_of,
  is_cohort_id,
}

text_where-ok : (p : Text → Bool) (s : Text) {t : Text} → text_where p (some (str s)) ≡ ok t → t ≡ s
unfolding text_where
text_where-ok p s h = elim (Bool-cases (p s)) [
  | inl holds ↦ ground arith
  | inr fails ↦ absurd (cc (rw fails at h))
]

version_of-decimal : (n : ℕ) {m : ℕ} → version_of (some (num (decimal n))) ≡ ok m → m ≡ n
unfolding version_of version_where
version_of-decimal n h = let read = rw (read_nat-decimal n) at h in ground arith

module _ (is_offset_datetime : Text → Bool) where
  parse_interrupt-entry_json :
      (x : AguiReceiptInterrupt) {y : AguiReceiptInterrupt}
      → parse_interrupt is_offset_datetime (entry_json x) ≡ ok y
      → y ≡ x
  unfolding parse_interrupt field text_eq only_keys
  parse_interrupt-entry_json x h =
      let (a, ha, h1) = >>=-eq-ok (text_where is_opaque_id (some (str x.continuation_id))) _ h in
      let (b, hb, h2) = >>=-eq-ok (text_where is_offset_datetime (some (str x.expires_at))) _ h1 in
      let (c, hc, h3) = >>=-eq-ok (version_of (some (num (decimal x.issued_version)))) _ h2 in
      let (d, hd, h4) = >>=-eq-ok (text_where is_hex_digest (some (str x.payload_hash))) _ h3 in
      let ea = text_where-ok is_opaque_id x.continuation_id ha in
      let eb = text_where-ok is_offset_datetime x.expires_at hb in
      let ec = version_of-decimal x.issued_version hc in
      let ed = text_where-ok is_hex_digest x.payload_hash hd in ground arith

  parse_interrupts-entries_json :
      (xs : List AguiReceiptInterrupt) {ys : List AguiReceiptInterrupt}
      → parse_interrupts is_offset_datetime (entries_json xs) ≡ ok ys
      → ys ≡ xs
  unfolding parse_interrupts entries_json
  parse_interrupts-entries_json [] h = ground arith
  parse_interrupts-entries_json (x ∷ xs) h =
      let (y, hy, h1) = >>=-eq-ok (parse_interrupt is_offset_datetime (entry_json x)) _ h in
      let (ys, hys, h2) = >>=-eq-ok (parse_interrupts is_offset_datetime (entries_json xs)) _ h1 in
      let ex = parse_interrupt-entry_json x hy in
      let exs = parse_interrupts-entries_json xs hys in ground arith

  items_of-entries_json :
      (xs : List AguiReceiptInterrupt) {items : Items}
      → items_of (some (arr (entries_json xs))) ≡ ok items
      → items ≡ entries_json xs
  unfolding items_of entries_json
  items_of-entries_json [] h = absurd (cc h)
  items_of-entries_json (x ∷ xs) h = ground arith

  pub parse_receipt-receipt_json :
      (r : AguiInterruptReceipt) {s : AguiInterruptReceipt}
      → parse_receipt is_offset_datetime (receipt_json r) ≡ ok s
      → s ≡ r
  unfolding parse_receipt receipt_json field text_eq only_keys
  parse_receipt-receipt_json r h =
      let d = r.descriptor in
      let (_, _, h0) = >>=-eq-ok (require (is_one (some (num (decimal 1)))) _) _ h in
      let (a, ha, h1) = >>=-eq-ok (text_where is_cohort_id (some (str r.cohort_id))) _ h0 in
      let (b, hb, h2) = >>=-eq-ok (text_where is_opaque_id (some (str d.thread_id))) _ h1 in
      let (c, hc, h3) = >>=-eq-ok (text_where is_opaque_id (some (str d.run_id))) _ h2 in
      let (items, hi, h4) = >>=-eq-ok (items_of (some (arr (entries_json d.interrupts)))) _ h3 in
      let (xs, hx, h5) = >>=-eq-ok (parse_interrupts is_offset_datetime items) _ h4 in
      let ea = text_where-ok is_cohort_id r.cohort_id ha in
      let eb = text_where-ok is_opaque_id d.thread_id hb in
      let ec = text_where-ok is_opaque_id d.run_id hc in
      let ei = items_of-entries_json d.interrupts hi in
      let ex = parse_interrupts-entries_json d.interrupts (rw ei at hx) in ground arith

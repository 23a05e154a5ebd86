-- ===== src/Service/Token.antt =====
-- `tokenHashesEqual` of application/continuation-service.ts
use mathlib.Core.Bool.{and-eq-true_iff}
use pausemesh.Prelude.{
  ==_iff, zero, ℕ, suc, ◌+◌, ◌-◌, ◌*◌, ◌≡◌, refl, ◌↔◌, Bool, true, false, ◌&&◌, ◌||◌, List, [], ◌∷◌,
  arith, ltb, leb, ◌==◌, length, all, if◌then◌else◌,
}
use pausemesh.Prelude.Text.{Text, text_eq, text_eq_iff}

-- `[a-f\d]` under the flag `i`
abbrev pub is_hex : ℕ → Bool
is_hex c = (leb b'0' c && leb c b'9') || (leb b'a' c && leb c b'f') || (leb b'A' c && leb c b'F')

-- `/^[a-f\d]{64}$/i.test(text)`
unfoldable pub is_token_hash : Text → Bool
is_token_hash text = (length text == 64) && all is_hex text

unfoldable pub hex_value : ℕ → ℕ
hex_value c = if leb c b'9' then c - b'0' else if leb c b'F' then c - b'A' + 10 else c - b'a' + 10

-- `Buffer.from(text, "hex")`, on texts that `is_token_hash` accepts.
unfoldable pub hex_bytes : Text → List ℕ
hex_bytes [] = []
hex_bytes (c ∷ []) = []
hex_bytes (c ∷ d ∷ rest) = (hex_value c * 16 + hex_value d) ∷ hex_bytes rest

unfoldable pub token_hashes_equal : Text → Text → Bool
token_hashes_equal left right =
    if is_token_hash left && is_token_hash right
    then (length (hex_bytes left) == length (hex_bytes right))
      && text_eq (hex_bytes left) (hex_bytes right)
    else false

-- Lower case, of a hexadecimal digit.
abbrev pub lower : ℕ → ℕ
lower c = if leb b'A' c && leb c b'F' then c + 32 else c

abbrev pub lower_all : Text → Text
lower_all [] = []
lower_all (c ∷ t) = lower c ∷ lower_all t

lower-eq_iff :
    (a b : ℕ)
    → is_hex a ≡ true
    → is_hex b ≡ true
    → (hex_value a ≡ hex_value b) ↔ (lower a ≡ lower b)
unfolding hex_value
lower-eq_iff a b p q = (λ e. ground arith, λ e. ground arith)

hex_value_small : (a : ℕ) → is_hex a ≡ true → ltb (hex_value a) 16 ≡ true
unfolding hex_value
hex_value_small a p = ground arith

split_two :
    (a b : ℕ) (s : Text)
    → all is_hex (a ∷ b ∷ s) ≡ true
    → (is_hex a ≡ true) × (is_hex b ≡ true) × (all is_hex s ≡ true)
split_two a b s p =
    let (pa, rest) = (and-eq-true_iff _ _).0 p in
    let (pb, ps) = (and-eq-true_iff _ _).0 rest in (pa, pb, ps)

byte-eq :
    (a b c d : ℕ)
    → is_hex a ≡ true
    → is_hex b ≡ true
    → is_hex c ≡ true
    → is_hex d ≡ true
    → hex_value a * 16 + hex_value b ≡ hex_value c * 16 + hex_value d
    → (lower a ≡ lower c) × (lower b ≡ lower d)
byte-eq a b c d pa pb pc pd e =
    let hb : ltb (hex_value b) 16 ≡ true = hex_value_small b pb in
    let hd : ltb (hex_value d) 16 ≡ true = hex_value_small d pd in
    ((lower-eq_iff a c pa pc).0 (ground arith), (lower-eq_iff b d pb pd).0 (ground arith))

bytes-eq :
    (k : ℕ) (s t : Text)
    → length s ≡ k * 2
    → length t ≡ k * 2
    → all is_hex s ≡ true
    → all is_hex t ≡ true
    → hex_bytes s ≡ hex_bytes t
    → lower_all s ≡ lower_all t
unfolding hex_bytes
bytes-eq zero [] [] m n p q e = refl
bytes-eq (suc k) (a ∷ b ∷ s) (c ∷ d ∷ t) m n p q e =
    let (pa, pb, ps) = split_two a b s p in
    let (qc, qd, qt) = split_two c d t q in
    let (x, y) = byte-eq a b c d pa pb qc qd (ground arith) in
    let z = bytes-eq k s t (omega arith) (omega arith) ps qt (ground arith) in cc
bytes-eq k s t m n p q e = absurd (omega arith)

bytes_of_lower :
    (k : ℕ) (s t : Text)
    → length s ≡ k * 2
    → length t ≡ k * 2
    → all is_hex s ≡ true
    → all is_hex t ≡ true
    → lower_all s ≡ lower_all t
    → hex_bytes s ≡ hex_bytes t
unfolding hex_bytes
bytes_of_lower zero [] [] m n p q e = refl
bytes_of_lower (suc k) (a ∷ b ∷ s) (c ∷ d ∷ t) m n p q e =
    let (pa, pb, ps) = split_two a b s p in
    let (qc, qd, qt) = split_two c d t q in
    let x = (lower-eq_iff a c pa qc).1 (ground arith) in
    let y = (lower-eq_iff b d pb qd).1 (ground arith) in
    let z = bytes_of_lower k s t (omega arith) (omega arith) ps qt (ground arith) in cc
bytes_of_lower k s t m n p q e = absurd (omega arith)

token_hash_parts : (s : Text) → is_token_hash s ≡ true → (length s ≡ 64) × (all is_hex s ≡ true)
unfolding is_token_hash
token_hash_parts s p = let (n, h) = (and-eq-true_iff _ _).0 p in ((==_iff _ _).0 n, h)

bytes_of_equal :
    (left right : Text)
    → token_hashes_equal left right ≡ true
    → (is_token_hash left ≡ true)
      × (is_token_hash right ≡ true)
      × (hex_bytes left ≡ hex_bytes right)
unfolding token_hashes_equal
bytes_of_equal left right e = ground (arith, text_eq_iff (hex_bytes left) (hex_bytes right))

equal_of_parts :
    (left right : Text)
    → is_token_hash left ≡ true
    → is_token_hash right ≡ true
    → lower_all left ≡ lower_all right
    → token_hashes_equal left right ≡ true
equal_of_parts left right p q e =
    let (m, h) = token_hash_parts left p in
    let (n, k) = token_hash_parts right q in
    let same = bytes_of_lower 32 left right m n h k e in
    unfold token_hashes_equal in ground (arith, text_eq_iff (hex_bytes left) (hex_bytes right))

parts_of_equal :
    (left right : Text)
    → token_hashes_equal left right ≡ true
    → (is_token_hash left ≡ true)
      × (is_token_hash right ≡ true)
      × (lower_all left ≡ lower_all right)
parts_of_equal left right e =
    let (p, q, same) = bytes_of_equal left right e in
    let (m, h) = token_hash_parts left p in
    let (n, k) = token_hash_parts right q in (p, q, bytes-eq 32 left right m n h k same)

-- Two stored hashes are taken for equal exactly when both are 64 hexadecimal digits and they agree
-- up to the case of the letters.
pub token_hashes_equal_iff :
    (left right : Text)
    → (token_hashes_equal left right ≡ true) ↔ (
        (is_token_hash left ≡ true)
        × (is_token_hash right ≡ true)
        × (lower_all left ≡ lower_all right))
token_hashes_equal_iff left right =
    (parts_of_equal left right, λ (p, q, e). equal_of_parts left right p q e)

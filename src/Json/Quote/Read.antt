-- ===== src/Json/Quote/Read.antt =====
-- A reader of the string literals that `JSON.stringify` prints.
use mathlib.Core.List.{append_assoc}
use pausemesh.Prelude.{
  ℕ, zero, suc, ◌+◌, ◌-◌, ◌*◌, ◌/◌, ◌%◌, ◌<◌, ◌≡◌, refl, true, false, ◌&&◌, Option, none, some, [],
  ◌∷◌, ◌++◌, arith, ltb, ◌==◌, if◌then◌else◌, Bool-cases, inl, inr, ap, ==_iff, ltb→lt, ◌∙◌,
}
use pausemesh.Prelude.Text.{Text}
use pausemesh.Json.Quote.{
  quote, quote_units, escape_unit, unicode_escape, hex_digit, is_lead, is_trail, is_surrogate,
}

-- In a literal, after a reverse solidus, or before so many hexadecimal digits.
pub data Mode : Type 0 where
  plain escaped : Mode
  digits : (left value : ℕ) → Mode

prepend : ℕ → Option (Text × Text) → Option (Text × Text)
prepend c none = none
prepend c (some (s, rest)) = some (c ∷ s, rest)

unescape : ℕ → ℕ
unescape c =
    if c == b'b'
    then 8
    else if c == b't'
    then 9
    else if c == b'n'
    then 10
    else if c == b'f'
    then 12
    else if c == b'r'
    then 13
    else c

digit_value : ℕ → ℕ
digit_value c = if ltb c b'a' then c - b'0' else c - b'a' + 10

-- What follows the opening quote: the string, and what follows the closing one.
pub read_units : Mode → Text → Option (Text × Text)
unfolding prepend unescape digit_value
read_units mode [] = none
read_units plain (c ∷ t) =
    let more = prepend c (read_units plain t) in
    let escape = read_units escaped t in
    if c == b'"' then some ([], t) else if c == b'\\' then escape else more
read_units escaped (c ∷ t) =
    let unit = prepend (unescape c) (read_units plain t) in
    let hex = read_units (digits 3 0) t in if c == b'u' then hex else unit
read_units (digits zero value) (c ∷ t) = prepend (value * 16 + digit_value c) (read_units plain t)
read_units (digits (suc left) value) (c ∷ t) =
    read_units (digits left (value * 16 + digit_value c)) t

digit_value-hex_digit : (d : ℕ) → d < 16 → digit_value (hex_digit d) ≡ d
unfolding digit_value
digit_value-hex_digit d h = ground arith

read-unicode_escape :
    (c : ℕ) (t : Text)
    → c < 65536
    → read_units plain (unicode_escape c ++ t) ≡ prepend c (read_units plain t)
unfolding read_units unicode_escape
read-unicode_escape c t h =
    let a = digit_value-hex_digit (c / 4096) (omega arith) in
    let b = digit_value-hex_digit (c / 256 % 16) (omega arith) in
    let d = digit_value-hex_digit (c / 16 % 16) (omega arith) in
    let e = digit_value-hex_digit (c % 16) (omega arith) in
    rw (a, b, d, e) (ap (λ n. prepend n (read_units plain t)) (omega arith))

read-itself :
    (c : ℕ) (t : Text)
    → (c == b'"') ≡ false
    → (c == b'\\') ≡ false
    → read_units plain (c ∷ t) ≡ prepend c (read_units plain t)
unfolding read_units
read-itself c t quotes solidus = rw (quotes, solidus) refl

read-escape_unit :
    (c : ℕ) (t : Text) → read_units plain (escape_unit c ++ t) ≡ prepend c (read_units plain t)
unfolding read_units escape_unit unescape
read-escape_unit c t = elim (Bool-cases (c == 8)) [
  | inl e ↦ rw ((==_iff c 8).0 e) refl
  | inr n8 ↦ elim (Bool-cases (c == 9)) [
    | inl e ↦ rw ((==_iff c 9).0 e) refl
    | inr n9 ↦ elim (Bool-cases (c == 10)) [
      | inl e ↦ rw ((==_iff c 10).0 e) refl
      | inr n10 ↦ elim (Bool-cases (c == 12)) [
        | inl e ↦ rw ((==_iff c 12).0 e) refl
        | inr n12 ↦ elim (Bool-cases (c == 13)) [
          | inl e ↦ rw ((==_iff c 13).0 e) refl
          | inr n13 ↦ elim (Bool-cases (c == 34)) [
            | inl e ↦ rw ((==_iff c 34).0 e) refl
            | inr n34 ↦ elim (Bool-cases (c == 92)) [
              | inl e ↦ rw ((==_iff c 92).0 e) refl
              | inr n92 ↦ elim (Bool-cases (ltb c 32)) [
                | inl low ↦
                    rw (n8, n9, n10, n12, n13, n34, n92, low)
                      (read-unicode_escape c t (omega (arith, ltb→lt c 32 low)))
                | inr high ↦ rw (n8, n9, n10, n12, n13, n34, n92, high) (read-itself c t n34 n92)
              ]
            ]
          ]
        ]
      ]
    ]
  ]
]

read-surrogate :
    (c : ℕ) (t : Text)
    → is_surrogate c ≡ true
    → read_units plain (unicode_escape c ++ t) ≡ prepend c (read_units plain t)
read-surrogate c t h = read-unicode_escape c t (ground arith)

read-unit :
    (c : ℕ) (t : Text)
    → read_units plain ((if is_surrogate c then unicode_escape c else escape_unit c) ++ t)
      ≡ prepend c (read_units plain t)
read-unit c t = elim (Bool-cases (is_surrogate c)) [
  | inl h ↦ rw h (read-surrogate c t h)
  | inr h ↦ rw h (read-escape_unit c t)
]

read_units-quote_units :
    (s rest : Text) → read_units plain (quote_units s ++ b'"' ∷ rest) ≡ some (s, rest)
unfolding read_units quote_units prepend
read_units-quote_units [] rest = refl
read_units-quote_units (c ∷ []) rest = read-unit c (b'"' ∷ rest)
read_units-quote_units (c ∷ d ∷ s) rest = elim (Bool-cases (is_lead c && is_trail d)) [
  | inl pair ↦ rw pair (
      read-itself c (d ∷ (quote_units s ++ b'"' ∷ rest)) (ground arith) (ground arith)
      ∙ ap (prepend c) (
          read-itself d (quote_units s ++ b'"' ∷ rest) (ground arith) (ground arith)
          ∙ ap (prepend d) (read_units-quote_units s rest)))
  | inr lone ↦ rw lone (elim (Bool-cases (is_surrogate c)) [
    | inl h ↦ rw h (
        read-surrogate c (quote_units (d ∷ s) ++ b'"' ∷ rest) h
        ∙ ap (prepend c) (read_units-quote_units (d ∷ s) rest))
    | inr h ↦
        rw (h, append_assoc (escape_unit c) (quote_units (d ∷ s)) (b'"' ∷ rest))
          (read-escape_unit c (quote_units (d ∷ s) ++ b'"' ∷ rest)
            ∙ ap (prepend c) (read_units-quote_units (d ∷ s) rest))
  ])
]

-- A string literal is read back, with what follows it.
pub read_units-quote :
    (s rest : Text)
    → (t : Text) × (quote s ++ rest ≡ b'"' ∷ t) × (read_units plain t ≡ some (s, rest))
unfolding quote
read_units-quote s rest = (
  quote_units s ++ b'"' ∷ rest,
  ap (λ t. b'"' ∷ t) (append_assoc (quote_units s) (b'"' ∷ []) rest),
  read_units-quote_units s rest,
)

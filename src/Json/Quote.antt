-- ===== src/Json/Quote.antt =====
-- `JSON.stringify` of a string: quotes round it, escapes inside, lone surrogates written in hex.
pub mod Read
use pausemesh.Prelude.{
  ℕ, ◌+◌, ◌-◌, ◌/◌, ◌%◌, Bool, ◌&&◌, ◌||◌, [], ◌∷◌, ◌++◌, ltb, leb, ◌==◌, if◌then◌else◌, ◌≡◌, refl,
}
use pausemesh.Prelude.Text.{Text, codes}

abbrev hex_digit : ℕ → ℕ
hex_digit d = if ltb d 10 then b'0' + d else b'a' + (d - 10)

unfoldable unicode_escape : ℕ → Text
unicode_escape c =
    codes "\\u"
    ++ hex_digit (c / 4096)
      ∷ hex_digit (c / 256 % 16)
      ∷ hex_digit (c / 16 % 16)
      ∷ hex_digit (c % 16)
      ∷ []

unfoldable escape_unit : ℕ → Text
unfolding unicode_escape
escape_unit c =
    if c == 8
    then codes "\\b"
    else if c == 9
    then codes "\\t"
    else if c == 10
    then codes "\\n"
    else if c == 12
    then codes "\\f"
    else if c == 13
    then codes "\\r"
    else if c == 34
    then codes "\\\""
    else if c == 92
    then codes "\\\\"
    else if ltb c 32
    then unicode_escape c
    else c ∷ []

abbrev is_lead : ℕ → Bool
is_lead c = leb 0xd800 c && leb c 0xdbff

abbrev is_trail : ℕ → Bool
is_trail c = leb 0xdc00 c && leb c 0xdfff

abbrev is_surrogate : ℕ → Bool
is_surrogate c = is_lead c || is_trail c

-- `pending` is a leading surrogate whose successor has not been read.
unfoldable quote_units : Text → Text
unfolding escape_unit
quote_units [] = []
quote_units (c ∷ []) = if is_surrogate c then unicode_escape c else escape_unit c
quote_units (c ∷ d ∷ rest) =
    let paired = c ∷ d ∷ quote_units rest in
    let single = quote_units (d ∷ rest) in
    if is_lead c && is_trail d
    then paired
    else if is_surrogate c
    then unicode_escape c ++ single
    else escape_unit c ++ single

-- `JSON.stringify(text)`
unfoldable pub quote : Text → Text
unfolding quote_units
quote s = b'"' ∷ (quote_units s ++ b'"' ∷ [])

quote_escapes : quote (codes "a\"b") ≡ codes "\"a\\\"b\""
unfolding quote
quote_escapes = refl

quote_pair : quote (0xd83d ∷ 0xde00 ∷ []) ≡ b'"' ∷ 0xd83d ∷ 0xde00 ∷ b'"' ∷ []
unfolding quote
quote_pair = refl

quote_lone : quote (0xd83d ∷ 31 ∷ []) ≡ codes "\"\\ud83d\\u001f\""
unfolding quote
quote_lone = refl

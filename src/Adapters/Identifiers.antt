-- ===== src/Adapters/Identifiers.antt =====
-- Identifiers without edge whitespace, the schema that the adapters share.
use pausemesh.Prelude.{ℕ, Bool, ◌&&◌, ◌||◌, [], ◌∷◌, all, leb, ltb, ◌==◌, length, if◌then◌else◌}
use pausemesh.Prelude.Text.{Text, text_eq}

-- White space and line terminators of the language.
abbrev pub is_space : ℕ → Bool
is_space c =
    (leb 0x9 c && leb c 0xd)
    || (c == 0x20)
    || (c == 0xa0)
    || (c == 0x1680)
    || (leb 0x2000 c && leb c 0x200a)
    || (c == 0x2028)
    || (c == 0x2029)
    || (c == 0x202f)
    || (c == 0x205f)
    || (c == 0x3000)
    || (c == 0xfeff)

unfoldable pub drop_spaces : Text → Text
drop_spaces [] = []
drop_spaces (c ∷ t) = let rest = drop_spaces t in if is_space c then rest else c ∷ t

-- A character before a text that is trimmed at its end.
before_end : ℕ → Text → Text
before_end c [] = if is_space c then [] else c ∷ []
before_end c (d ∷ t) = c ∷ d ∷ t

trim_end : Text → Text
unfolding before_end
trim_end [] = []
trim_end (c ∷ t) = before_end c (trim_end t)

-- `text.trim()`
unfoldable pub trim : Text → Text
unfolding drop_spaces trim_end
trim text = trim_end (drop_spaces text)

-- `OpaqueProtocolIdSchema`
unfoldable pub is_opaque_id : Text → Bool
is_opaque_id text = ltb 0 (length text) && (ltb 0 (length (trim text)) && text_eq text (trim text))

-- `[a-f\d]`
abbrev is_hex_digit : ℕ → Bool
is_hex_digit c = (leb b'0' c && leb c b'9') || (leb b'a' c && leb c b'f')

-- `/^[a-f\d]{64}$/`
unfoldable pub is_hex_digest : Text → Bool
is_hex_digest text = (length text == 64) && all is_hex_digit text

-- ===== src/Json/Print.antt =====
-- `JSON.stringify` of a JSON value, and the length of a text in UTF-8.
pub mod Read
pub mod Unique
use pausemesh.Prelude.{ℕ, ◌+◌, true, false, ◌&&◌, [], ◌∷◌, ◌++◌, leb, ltb, if◌then◌else◌}
use pausemesh.Prelude.Text.{Text, codes}
use pausemesh.Json.{Json, null, bool, num, str, arr, obj, Items, nil, cons, Entries, end, entry}
use pausemesh.Json.Quote.{quote}

unfoldable mutual
  pub stringify : Json → Text
  stringify null = codes "null"
  stringify (bool true) = codes "true"
  stringify (bool false) = codes "false"
  stringify (num literal) = literal
  stringify (str s) = quote s
  stringify (arr xs) = b'[' ∷ (stringify_items xs ++ b']' ∷ [])
  stringify (obj es) = b'{' ∷ (stringify_entries es ++ b'}' ∷ [])

  pub stringify_items : Items → Text
  stringify_items nil = []
  stringify_items (cons x nil) = stringify x
  stringify_items (cons x (cons y xs)) = stringify x ++ b',' ∷ stringify_items (cons y xs)

  pub stringify_entries : Entries → Text
  stringify_entries end = []
  stringify_entries (entry k v end) = quote k ++ b':' ∷ stringify v
  stringify_entries (entry k v (entry j w es)) =
      quote k ++ b':' ∷ (stringify v ++ b',' ∷ stringify_entries (entry j w es))

abbrev unit_bytes : ℕ → ℕ
unit_bytes c = if ltb c 0x80 then 1 else if ltb c 0x800 then 2 else 3

-- `Buffer.byteLength(text, "utf8")`: four bytes for a pair of surrogates.
unfoldable pub byte_length : Text → ℕ
byte_length [] = 0
byte_length (c ∷ []) = unit_bytes c
byte_length (c ∷ d ∷ rest) =
    let paired = 4 + byte_length rest in
    let single = unit_bytes c + byte_length (d ∷ rest) in
    if leb 0xd800 c && leb c 0xdbff && leb 0xdc00 d && leb d 0xdfff then paired else single

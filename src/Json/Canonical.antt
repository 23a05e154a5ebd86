-- ===== src/Json/Canonical.antt =====
-- domain/canonical-json.ts
use pausemesh.Prelude.{true, false, List, [], ◌∷◌, ◌++◌, ◌≡◌, refl}
use pausemesh.Prelude.Text.{Text, codes}
use pausemesh.Json.{Json, null, bool, num, str, arr, obj, Items, nil, cons, Entries, end, entry}
use pausemesh.Json.Quote.{quote}
use pausemesh.Json.Order.{text_lt, compare_utf16, sort, insert}

-- `texts.join(",")`
unfoldable pub join : List Text → Text
join [] = []
join (t ∷ []) = t
join (t ∷ rest) = t ++ b',' ∷ join rest

unfoldable pub pair : List (Text × Text) → List Text
pair [] = []
pair ((key, printed) ∷ rest) = (quote key ++ b':' ∷ printed) ∷ pair rest

-- The entries are printed before they are sorted; the sort reads the keys alone.
unfoldable mutual
  unfolding join pair

  pub canonical_json : Json → Text
  canonical_json null = codes "null"
  canonical_json (bool true) = codes "true"
  canonical_json (bool false) = codes "false"
  canonical_json (num literal) = literal
  canonical_json (str s) = quote s
  canonical_json (arr xs) = b'[' ∷ (join (canonical_items xs) ++ b']' ∷ [])
  canonical_json (obj es) = b'{' ∷ (join (pair (sort (canonical_entries es))) ++ b'}' ∷ [])

  pub canonical_items : Items → List Text
  canonical_items nil = []
  canonical_items (cons x xs) = canonical_json x ∷ canonical_items xs

  pub canonical_entries : Entries → List (Text × Text)
  canonical_entries end = []
  canonical_entries (entry k v es) = (k, canonical_json v) ∷ canonical_entries es

sorted_keys :
    canonical_json (
      obj (
        entry
          (codes "b")
          (num (codes "1"))
          (entry (codes "a") (arr (cons null (cons (str []) nil))) end)))
    ≡ codes "{\"a\":[null,\"\"],\"b\":1}"
unfolding canonical_json quote sort insert compare_utf16 text_lt
sorted_keys = refl

-- ===== src/Json/Print/Read.antt =====
-- A reader of the texts that `JSON.stringify` prints.
use pausemesh.Prelude.{
  ℕ, zero, suc, ◌≡◌, refl, Bool, true, false, ◌&&◌, ◌||◌, not, Option, none, some, [], ◌∷◌, ◌++◌,
  all, arith, leb, ◌==◌, if◌then◌else◌,
}
use pausemesh.Prelude.Text.{Text}
use pausemesh.Json.{Json, null, bool, num, str, arr, obj, Items, nil, cons, Entries, end, entry}
use pausemesh.Json.Quote.Read.{plain, read_units}

-- The units of the literals of finite numbers.
abbrev pub is_number_unit : ℕ → Bool
is_number_unit c = leb b'0' c && leb c b'9' || c == b'-' || c == b'+' || c == b'.' || c == b'e'

abbrev pub is_literal : Text → Bool
is_literal [] = false
is_literal (c ∷ t) = is_number_unit c && all is_number_unit t

unfoldable mutual
  pub HasLiterals : Json → Type 0
  HasLiterals (num literal) = is_literal literal ≡ true
  HasLiterals (arr xs) = ItemsHaveLiterals xs
  HasLiterals (obj es) = EntriesHaveLiterals es
  HasLiterals null = Unit {0}
  HasLiterals (bool b) = Unit {0}
  HasLiterals (str s) = Unit {0}

  pub ItemsHaveLiterals : Items → Type 0
  ItemsHaveLiterals nil = Unit {0}
  ItemsHaveLiterals (cons x xs) = HasLiterals x × ItemsHaveLiterals xs

  pub EntriesHaveLiterals : Entries → Type 0
  EntriesHaveLiterals end = Unit {0}
  EntriesHaveLiterals (entry k v es) = HasLiterals v × EntriesHaveLiterals es

abbrev pub stops : Text → Bool
stops [] = true
stops (c ∷ t) = not (is_number_unit c)

-- The longest literal in front, and what follows it.
unfoldable pub span : Text → Text × Text
span [] = ([], [])
span (c ∷ t) =
    let (literal, rest) = span t in if is_number_unit c then (c ∷ literal, rest) else ([], c ∷ t)

pub span-literal :
    (literal rest : Text)
    → all is_number_unit literal ≡ true
    → stops rest ≡ true
    → span (literal ++ rest) ≡ (literal, rest)
unfolding span
span-literal [] [] p q = refl
span-literal [] (c ∷ rest) p q = ground arith
span-literal (c ∷ literal) rest p q = ground (arith, span-literal literal rest)

unfoldable pub drop : ℕ → Text → Text
drop zero t = t
drop (suc n) [] = []
drop (suc n) (c ∷ t) = drop n t

unfoldable pub text_value : Option (Text × Text) → Option (Json × Text)
text_value none = none
text_value (some (s, t)) = some (str s, t)

unfoldable pub array_value : Option (Items × Text) → Option (Json × Text)
array_value none = none
array_value (some (xs, t)) = some (arr xs, t)

unfoldable pub object_value : Option (Entries × Text) → Option (Json × Text)
object_value none = none
object_value (some (es, t)) = some (obj es, t)

unfoldable pub number_value : Text × Text → Option (Json × Text)
number_value (literal, t) = some (num literal, t)

unfoldable pub add_item : Json → Option (Items × Text) → Option (Items × Text)
add_item x none = none
add_item x (some (xs, t)) = some (cons x xs, t)

unfoldable pub add_entry : Text → Json → Option (Entries × Text) → Option (Entries × Text)
add_entry k v none = none
add_entry k v (some (es, t)) = some (entry k v es, t)

abbrev pub Reader : Type 0 → Type 0
Reader A = Text → Option (A × Text)

-- After an item: more items, or the closing bracket.
unfoldable pub items_after : Reader Items → Option (Json × Text) → Option (Items × Text)
unfolding add_item
items_after items none = none
items_after items (some (x, [])) = none
items_after items (some (x, c ∷ t)) =
    let more = add_item x (items t) in if c == b',' then more else some (cons x nil, t)

unfoldable pub entries_after :
    Reader Entries → Text → Option (Json × Text) → Option (Entries × Text)
unfolding add_entry
entries_after entries k none = none
entries_after entries k (some (v, [])) = none
entries_after entries k (some (v, c ∷ t)) =
    let more = add_entry k v (entries t) in if c == b',' then more else some (entry k v end, t)

unfoldable pub entry_named :
    Reader Json → Reader Entries → Option (Text × Text) → Option (Entries × Text)
unfolding entries_after
entry_named value entries none = none
entry_named value entries (some (k, [])) = none
entry_named value entries (some (k, c ∷ t)) = entries_after entries k (value t)

-- The recursion is on fuel. Items and entries are read with the bracket that closes them.
unfoldable mutual
  unfolding span drop text_value array_value object_value number_value items_after entry_named

  pub read_value : ℕ → Reader Json
  read_value zero t = none
  read_value (suc fuel) [] = none
  read_value (suc fuel) (c ∷ t) =
      let items = read_items fuel t in
      let entries = read_entries fuel t in
      if c == b'"'
      then text_value (read_units plain t)
      else if c == b'['
      then array_value items
      else if c == b'{'
      then object_value entries
      else if c == b'n'
      then some (null, drop 3 t)
      else if c == b't'
      then some (bool true, drop 3 t)
      else if c == b'f'
      then some (bool false, drop 4 t)
      else number_value (span (c ∷ t))

  pub read_items : ℕ → Reader Items
  read_items zero t = none
  read_items (suc fuel) [] = none
  read_items (suc fuel) (c ∷ t) =
      let more = items_after (read_items fuel) (read_value fuel (c ∷ t)) in
      if c == b']' then some (nil, t) else more

  pub read_entries : ℕ → Reader Entries
  read_entries zero t = none
  read_entries (suc fuel) [] = none
  read_entries (suc fuel) (c ∷ t) =
      let more = entry_named (read_value fuel) (read_entries fuel) (read_units plain t) in
      if c == b'"' then more else some (end, t)

-- ===== src/Json/Print/Unique.antt =====
-- The reader on the texts that `JSON.stringify` prints.
use mathlib.Core.List.{append_assoc}
use pausemesh.Prelude.{
  ℕ, zero, suc, ◌+◌, ◌≤◌, ◌≡◌, refl, ◌∙◌, ap, Bool, true, false, ◌&&◌, some, [], ◌∷◌, ◌++◌, all,
  arith, ◌==◌, Bool-cases, inl, inr, ==_iff,
}
use pausemesh.Prelude.Text.{Text}
use pausemesh.Json.{Json, null, bool, num, str, arr, obj, Items, nil, cons, Entries, end, entry}
use pausemesh.Json.Quote.{quote}
use pausemesh.Json.Quote.Read.{read_units-quote}
use pausemesh.Json.Print.{stringify, stringify_items, stringify_entries}
use pausemesh.Json.Print.Read.{
  is_number_unit, is_literal, HasLiterals, ItemsHaveLiterals, EntriesHaveLiterals, stops, span,
  span-literal, drop, text_value, array_value, object_value, number_value, add_item, add_entry,
  items_after, entries_after, entry_named, read_value, read_items, read_entries,
}

mutual
  size : Json → ℕ
  size null = 1
  size (bool b) = 1
  size (num literal) = 1
  size (str s) = 1
  size (arr xs) = suc (items_size xs)
  size (obj es) = suc (entries_size es)

  items_size : Items → ℕ
  items_size nil = 1
  items_size (cons x xs) = suc (size x + items_size xs)

  entries_size : Entries → ℕ
  entries_size end = 1
  entries_size (entry k v es) = suc (size v + entries_size es)

size_pos : (x : Json) → 1 ≤ size x
unfolding size
size_pos null = omega arith
size_pos (bool b) = omega arith
size_pos (num literal) = omega arith
size_pos (str s) = omega arith
size_pos (arr xs) = omega arith
size_pos (obj es) = omega arith

items_size_pos : (xs : Items) → 1 ≤ items_size xs
unfolding size
items_size_pos nil = omega arith
items_size_pos (cons x xs) = omega arith

entries_size_pos : (es : Entries) → 1 ≤ entries_size es
unfolding size
entries_size_pos end = omega arith
entries_size_pos (entry k v es) = omega arith

-- No value begins with the bracket that closes an array.
lead :
    (x : Json) (rest : Text)
    → HasLiterals x
    → (c : ℕ) × (t : Text) × (stringify x ++ rest ≡ c ∷ t) × ((c == b']') ≡ false)
unfolding stringify quote HasLiterals
lead null rest fine = (_, _, refl, refl)
lead (bool true) rest fine = (_, _, refl, refl)
lead (bool false) rest fine = (_, _, refl, refl)
lead (num []) rest fine = absurd (cc fine)
lead (num (c ∷ t)) rest fine = (_, _, refl, ground arith)
lead (str s) rest fine = (_, _, refl, refl)
lead (arr xs) rest fine = (_, _, refl, refl)
lead (obj es) rest fine = (_, _, refl, refl)

read_items-item :
    (fuel : ℕ) (x : Json) (rest : Text)
    → HasLiterals x
    → read_items (suc fuel) (stringify x ++ rest)
      ≡ items_after (read_items fuel) (read_value fuel (stringify x ++ rest))
unfolding read_items
read_items-item fuel x rest fine = let (c, t, e, other) = lead x rest fine in rw (e, other) refl

read_entries-key :
    (fuel : ℕ) (k rest : Text)
    → read_entries (suc fuel) (quote k ++ b':' ∷ rest)
      ≡ entries_after (read_entries fuel) k (read_value fuel rest)
unfolding read_entries entry_named
read_entries-key fuel k rest =
    let (t, e, read) = read_units-quote k (b':' ∷ rest) in rw (e, read) refl

number_unit-apart :
    (c d : ℕ) → is_number_unit d ≡ false → is_number_unit c ≡ true → (c == d) ≡ false
number_unit-apart c d other unit = elim (Bool-cases (c == d)) [
  | inl e ↦ absurd (cc (unit, other, ap is_number_unit ((==_iff c d).0 e)))
  | inr ne ↦ ne
]

first_of : (a b : Bool) → (a && b) ≡ true → a ≡ true
first_of true b h = refl
first_of false b h = h

read_value-num :
    (fuel : ℕ) (literal rest : Text)
    → is_literal literal ≡ true
    → stops rest ≡ true
    → read_value (suc fuel) (literal ++ rest) ≡ some (num literal, rest)
unfolding read_value span
read_value-num fuel [] rest fine stop = absurd (cc fine)
read_value-num fuel (c ∷ t) rest fine stop =
    let unit = first_of (is_number_unit c) (all is_number_unit t) fine in
    rw
      (
        number_unit-apart c 34 refl unit,
        number_unit-apart c 91 refl unit,
        number_unit-apart c 123 refl unit,
        number_unit-apart c 110 refl unit,
        number_unit-apart c 116 refl unit,
        number_unit-apart c 102 refl unit,
      )
      (ap number_value (span-literal (c ∷ t) rest fine stop))

mutual
  unfolding read_value read_items read_entries size stringify text_value array_value object_value
      number_value items_after entry_named entries_after drop add_item add_entry HasLiterals

  read_value-stringify :
      (fuel : ℕ) (x : Json) (rest : Text)
      → size x ≤ fuel
      → HasLiterals x
      → stops rest ≡ true
      → read_value fuel (stringify x ++ rest) ≡ some (x, rest)
  read_value-stringify zero x rest enough fine stop = absurd (omega (arith, size_pos x))
  read_value-stringify (suc fuel) null rest enough fine stop = refl
  read_value-stringify (suc fuel) (bool true) rest enough fine stop = refl
  read_value-stringify (suc fuel) (bool false) rest enough fine stop = refl
  read_value-stringify (suc fuel) (num literal) rest enough fine stop =
      read_value-num fuel literal rest fine stop
  read_value-stringify (suc fuel) (str s) rest enough fine stop =
      let (t, e, read) = read_units-quote s rest in rw (e, read) refl
  read_value-stringify (suc fuel) (arr xs) rest enough fine stop =
      rw (append_assoc (stringify_items xs) (b']' ∷ []) rest)
        (ap array_value (read_items-stringify fuel xs rest (omega arith) fine))
  read_value-stringify (suc fuel) (obj es) rest enough fine stop =
      rw (append_assoc (stringify_entries es) (b'}' ∷ []) rest)
        (ap object_value (read_entries-stringify fuel es rest (omega arith) fine))

  read_items-stringify :
      (fuel : ℕ) (xs : Items) (rest : Text)
      → items_size xs ≤ fuel
      → ItemsHaveLiterals xs
      → read_items fuel (stringify_items xs ++ b']' ∷ rest) ≡ some (xs, rest)
  read_items-stringify zero xs rest enough fine = absurd (omega (arith, items_size_pos xs))
  read_items-stringify (suc fuel) nil rest enough fine = refl
  read_items-stringify (suc fuel) (cons x nil) rest enough fine =
      read_items-item fuel x (b']' ∷ rest) fine.0
      ∙ ap (items_after (read_items fuel))
          (read_value-stringify fuel x (b']' ∷ rest) (omega arith) fine.0 refl)
  read_items-stringify (suc fuel) (cons x (cons y xs)) rest enough fine =
      let printed = stringify_items (cons y xs) in
      rw (append_assoc (stringify x) (b',' ∷ printed) (b']' ∷ rest)) (
        read_items-item fuel x (b',' ∷ (printed ++ b']' ∷ rest)) fine.0
        ∙ ap (items_after (read_items fuel))
            (read_value-stringify fuel x _ (omega arith) fine.0 refl)
        ∙ ap (add_item x) (read_items-stringify fuel (cons y xs) rest (omega arith) fine.1))

  read_entries-stringify :
      (fuel : ℕ) (es : Entries) (rest : Text)
      → entries_size es ≤ fuel
      → EntriesHaveLiterals es
      → read_entries fuel (stringify_entries es ++ b'}' ∷ rest) ≡ some (es, rest)
  read_entries-stringify zero es rest enough fine = absurd (omega (arith, entries_size_pos es))
  read_entries-stringify (suc fuel) end rest enough fine = refl
  read_entries-stringify (suc fuel) (entry k v end) rest enough fine =
      rw (append_assoc (quote k) (b':' ∷ stringify v) (b'}' ∷ rest)) (
        read_entries-key fuel k (stringify v ++ b'}' ∷ rest)
        ∙ ap (entries_after (read_entries fuel) k)
            (read_value-stringify fuel v (b'}' ∷ rest) (omega arith) fine.0 refl))
  read_entries-stringify (suc fuel) (entry k v (entry j w es)) rest enough fine =
      let printed = stringify_entries (entry j w es) in
      rw
        (
          append_assoc (quote k) (b':' ∷ (stringify v ++ b',' ∷ printed)) (b'}' ∷ rest),
          append_assoc (stringify v) (b',' ∷ printed) (b'}' ∷ rest),
        )
        (read_entries-key fuel k (stringify v ++ b',' ∷ (printed ++ b'}' ∷ rest))
          ∙ ap (entries_after (read_entries fuel) k)
              (read_value-stringify fuel v _ (omega arith) fine.0 refl)
          ∙ ap (add_entry k v)
              (read_entries-stringify fuel (entry j w es) rest (omega arith) fine.1))

-- A value whose numbers are literals is determined by its text.
pub stringify-inj : (x y : Json) → HasLiterals x → HasLiterals y → stringify x ≡ stringify y → x ≡ y
stringify-inj x y px py e =
    let fuel = size x + size y in
    let read_x = read_value-stringify fuel x [] (omega arith) px refl in
    let read_y = read_value-stringify fuel y [] (omega arith) py refl in
    cc (read_x, read_y, ap (λ t. read_value fuel (t ++ [])) e)

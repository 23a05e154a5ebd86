-- ===== src/Json/Ordered.antt =====
-- JSON values with the entries of their objects in the order of the keys, by which the canonical
-- texts of domain/canonical-json.ts are compared.
use mathlib.Core.List.{append_assoc}
use pausemesh.Prelude.{
  ◌≡◌, ◌↔◌, refl, sym, ◌∙◌, ap, true, false, List, [], ◌∷◌, ◌++◌, Bool-cases, inl, inr,
}
use pausemesh.Prelude.Text.{Text}
use pausemesh.Json.{Json, null, bool, num, str, arr, obj, Items, nil, cons, Entries, end, entry}
use pausemesh.Json.Order.{sort, insert, is_gt, compare_utf16, gt-apart}
use pausemesh.Json.Quote.{quote}
use pausemesh.Json.Print.{stringify, stringify_items, stringify_entries}
use pausemesh.Json.Print.Read.{HasLiterals, ItemsHaveLiterals, EntriesHaveLiterals}
use pausemesh.Json.Print.Unique.{stringify-inj}
use pausemesh.Json.Canonical.{canonical_json, canonical_items, canonical_entries, join, pair}
use pausemesh.Json.Same.{
  SameJson, same, chain, arrays, objects, SameItems, none_left, item, SameEntries, no_entry, keep,
  swap, steps, canonical_json-SameJson, SameEntries-refl, SameJson-sym,
}

entries : List (Text × Json) → Entries
entries [] = end
entries ((k, v) ∷ rest) = entry k v (entries rest)

mutual
  unfolding entries

  ordered : Json → Json
  ordered null = null
  ordered (bool b) = bool b
  ordered (num literal) = num literal
  ordered (str s) = str s
  ordered (arr xs) = arr (ordered_items xs)
  ordered (obj es) = obj (entries (sort (ordered_values es)))

  ordered_items : Items → Items
  ordered_items nil = nil
  ordered_items (cons x xs) = cons (ordered x) (ordered_items xs)

  ordered_values : Entries → List (Text × Json)
  ordered_values end = []
  ordered_values (entry k v es) = (k, ordered v) ∷ ordered_values es

item_texts : Items → List Text
item_texts nil = []
item_texts (cons x xs) = stringify x ∷ item_texts xs

value_texts : List (Text × Json) → List (Text × Text)
value_texts [] = []
value_texts ((k, v) ∷ rest) = (k, stringify v) ∷ value_texts rest

insert-value_texts :
    (k : Text) (v : Json) (l : List (Text × Json))
    → insert k (stringify v) (value_texts l) ≡ value_texts (insert k v l)
unfolding insert value_texts
insert-value_texts k v [] = refl
insert-value_texts k v ((j, w) ∷ rest) = elim (Bool-cases (is_gt (compare_utf16 k j))) [
  | inl above ↦ rw above (ap (λ l. (j, stringify w) ∷ l) (insert-value_texts k v rest))
  | inr below ↦ rw below refl
]

sort-value_texts : (l : List (Text × Json)) → sort (value_texts l) ≡ value_texts (sort l)
unfolding sort value_texts
sort-value_texts [] = refl
sort-value_texts ((k, v) ∷ rest) =
    ap (insert k (stringify v)) (sort-value_texts rest) ∙ insert-value_texts k v (sort rest)

join-item_texts : (xs : Items) → join (item_texts xs) ≡ stringify_items xs
unfolding join item_texts stringify
join-item_texts nil = refl
join-item_texts (cons x nil) = refl
join-item_texts (cons x (cons y xs)) =
    ap (λ t. stringify x ++ b',' ∷ t) (join-item_texts (cons y xs))

join-value_texts :
    (l : List (Text × Json)) → join (pair (value_texts l)) ≡ stringify_entries (entries l)
unfolding join pair value_texts stringify entries
join-value_texts [] = refl
join-value_texts ((k, v) ∷ []) = refl
join-value_texts ((k, v) ∷ (j, w) ∷ rest) =
    append_assoc (quote k) (b':' ∷ stringify v) (b',' ∷ join (pair (value_texts ((j, w) ∷ rest))))
    ∙ ap (λ t. quote k ++ b':' ∷ (stringify v ++ b',' ∷ t)) (join-value_texts ((j, w) ∷ rest))

mutual
  unfolding canonical_json ordered item_texts value_texts stringify

  canonical-ordered : (x : Json) → canonical_json x ≡ stringify (ordered x)
  canonical-ordered null = refl
  canonical-ordered (bool true) = refl
  canonical-ordered (bool false) = refl
  canonical-ordered (num literal) = refl
  canonical-ordered (str s) = refl
  canonical-ordered (arr xs) =
      ap (λ t. b'[' ∷ (t ++ b']' ∷ []))
        (ap join (canonical_items-ordered xs) ∙ join-item_texts (ordered_items xs))
  canonical-ordered (obj es) =
      ap (λ t. b'{' ∷ (t ++ b'}' ∷ []))
        (ap (λ l. join (pair l))
            (ap sort (canonical_entries-ordered es) ∙ sort-value_texts (ordered_values es))
          ∙ join-value_texts (sort (ordered_values es)))

  canonical_items-ordered : (xs : Items) → canonical_items xs ≡ item_texts (ordered_items xs)
  canonical_items-ordered nil = refl
  canonical_items-ordered (cons x xs) = cc (canonical-ordered x, canonical_items-ordered xs)

  canonical_entries-ordered :
      (es : Entries) → canonical_entries es ≡ value_texts (ordered_values es)
  canonical_entries-ordered end = refl
  canonical_entries-ordered (entry k v es) = cc (canonical-ordered v, canonical_entries-ordered es)

SameEntries-insert :
    (k : Text) (v : Json) (l : List (Text × Json))
    → SameEntries (entry k v (entries l)) (entries (insert k v l))
unfolding entries insert
SameEntries-insert k v [] = SameEntries-refl (entry k v end)
SameEntries-insert k v ((j, w) ∷ rest) = elim (Bool-cases (is_gt (compare_utf16 k j))) [
  | inl above ↦
      rw above (steps (swap (gt-apart k j above)) (keep (same w) (SameEntries-insert k v rest)))
  | inr below ↦ rw below (SameEntries-refl (entry k v (entry j w (entries rest))))
]

mutual
  unfolding ordered sort

  SameJson-ordered : (x : Json) → SameJson x (ordered x)
  SameJson-ordered null = same null
  SameJson-ordered (bool b) = same (bool b)
  SameJson-ordered (num literal) = same (num literal)
  SameJson-ordered (str s) = same (str s)
  SameJson-ordered (arr xs) = arrays (SameItems-ordered xs)
  SameJson-ordered (obj es) = objects (SameEntries-ordered es)

  SameItems-ordered : (xs : Items) → SameItems xs (ordered_items xs)
  SameItems-ordered nil = none_left
  SameItems-ordered (cons x xs) = item (SameJson-ordered x) (SameItems-ordered xs)

  SameEntries-ordered : (es : Entries) → SameEntries es (entries (sort (ordered_values es)))
  SameEntries-ordered end = no_entry
  SameEntries-ordered (entry k v es) =
      steps (keep (SameJson-ordered v) (SameEntries-ordered es))
        (SameEntries-insert k (ordered v) (sort (ordered_values es)))

mutual
  unfolding HasLiterals

  HasLiterals-SameJson : {i j : Json} → SameJson i j → HasLiterals i → HasLiterals j
  HasLiterals-SameJson (same j) h = h
  HasLiterals-SameJson (chain p q) h = HasLiterals-SameJson q (HasLiterals-SameJson p h)
  HasLiterals-SameJson (arrays p) h = literals-SameItems p h
  HasLiterals-SameJson (objects p) h = literals-SameEntries p h

  literals-SameItems :
      {xs ys : Items} → SameItems xs ys → ItemsHaveLiterals xs → ItemsHaveLiterals ys
  literals-SameItems none_left h = h
  literals-SameItems (item p q) h = (HasLiterals-SameJson p h.0, literals-SameItems q h.1)

  literals-SameEntries :
      {es fs : Entries} → SameEntries es fs → EntriesHaveLiterals es → EntriesHaveLiterals fs
  literals-SameEntries no_entry h = h
  literals-SameEntries (keep p q) h = (HasLiterals-SameJson p h.0, literals-SameEntries q h.1)
  literals-SameEntries (swap ne) h = (h.1.0, (h.0, h.1.1))
  literals-SameEntries (steps p q) h = literals-SameEntries q (literals-SameEntries p h)

-- Two values whose numbers are literals have one canonical text if and only if they differ in the
-- order of the entries of their objects alone, at any depth and with distinct keys exchanged.
pub canonical_json_iff :
    (i j : Json)
    → HasLiterals i
    → HasLiterals j
    → ((canonical_json i ≡ canonical_json j) ↔ SameJson i j)
canonical_json_iff i j pi pj = (
  λ e.
      let printed = sym (canonical-ordered i) ∙ e ∙ canonical-ordered j in
      let one =
        stringify-inj (ordered i) (ordered j) (HasLiterals-SameJson (SameJson-ordered i) pi)
          (HasLiterals-SameJson (SameJson-ordered j) pj) printed in
      chain (SameJson-ordered i) (rw one (SameJson-sym (SameJson-ordered j))),
  canonical_json-SameJson i j,
)

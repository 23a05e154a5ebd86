-- ===== src/Json/Same.antt =====
-- When two JSON values differ in the order of their objects' entries alone.
use pausemesh.Prelude.{◌≡◌, ◌≢◌, refl, sym, ◌∙◌}
use pausemesh.Prelude.Text.{Text}
use pausemesh.Json.{Json, arr, obj, Items, nil, cons, Entries, end, entry}
use pausemesh.Json.Order.{sort, insert_comm}
use pausemesh.Json.Canonical.{canonical_json, canonical_items, canonical_entries}

mutual
  pub data SameJson : Json → Json → Type 0 where
    same : (j : Json) → SameJson j j
    chain : {i j k : Json} → SameJson i j → SameJson j k → SameJson i k
    arrays : {xs ys : Items} → SameItems xs ys → SameJson (arr xs) (arr ys)
    objects : {es fs : Entries} → SameEntries es fs → SameJson (obj es) (obj fs)

  pub data SameItems : Items → Items → Type 0 where
    none_left : SameItems nil nil
    item :
        {x y : Json} {xs ys : Items}
        → SameJson x y
        → SameItems xs ys
        → SameItems (cons x xs) (cons y ys)

  pub data SameEntries : Entries → Entries → Type 0 where
    no_entry : SameEntries end end
    keep :
        {k : Text} {v w : Json} {es fs : Entries}
        → SameJson v w
        → SameEntries es fs
        → SameEntries (entry k v es) (entry k w fs)
    swap :
        {k j : Text} {v w : Json} {es : Entries}
        → k ≢ j
        → SameEntries (entry k v (entry j w es)) (entry j w (entry k v es))
    steps : {es fs gs : Entries} → SameEntries es fs → SameEntries fs gs → SameEntries es gs

pub SameEntries-refl : (es : Entries) → SameEntries es es
SameEntries-refl end = no_entry
SameEntries-refl (entry k v es) = keep (same v) (SameEntries-refl es)

mutual
  pub SameJson-sym : {i j : Json} → SameJson i j → SameJson j i
  SameJson-sym (same j) = same j
  SameJson-sym (chain p q) = chain (SameJson-sym q) (SameJson-sym p)
  SameJson-sym (arrays p) = arrays (SameItems-sym p)
  SameJson-sym (objects p) = objects (SameEntries-sym p)

  SameItems-sym : {xs ys : Items} → SameItems xs ys → SameItems ys xs
  SameItems-sym none_left = none_left
  SameItems-sym (item p q) = item (SameJson-sym p) (SameItems-sym q)

  SameEntries-sym : {es fs : Entries} → SameEntries es fs → SameEntries fs es
  SameEntries-sym no_entry = no_entry
  SameEntries-sym (keep p q) = keep (SameJson-sym p) (SameEntries-sym q)
  SameEntries-sym (swap ne) = swap (λ e. ne (sym e))
  SameEntries-sym (steps p q) = steps (SameEntries-sym q) (SameEntries-sym p)

mutual
  unfolding canonical_json sort

  canonical_of_SameJson : {i j : Json} → SameJson i j → canonical_json i ≡ canonical_json j
  canonical_of_SameJson (same j) = refl
  canonical_of_SameJson (chain p q) = canonical_of_SameJson p ∙ canonical_of_SameJson q
  canonical_of_SameJson (arrays p) = rw (canonical_of_SameItems p)
  canonical_of_SameJson (objects p) = rw (sort_of_SameEntries p)

  canonical_of_SameItems :
      {xs ys : Items} → SameItems xs ys → canonical_items xs ≡ canonical_items ys
  canonical_of_SameItems none_left = refl
  canonical_of_SameItems (item p q) = cc (canonical_of_SameJson p, canonical_of_SameItems q)

  sort_of_SameEntries :
      {es fs : Entries}
      → SameEntries es fs
      → sort (canonical_entries es) ≡ sort (canonical_entries fs)
  sort_of_SameEntries no_entry = refl
  sort_of_SameEntries (keep p q) = cc (canonical_of_SameJson p, sort_of_SameEntries q)
  sort_of_SameEntries (swap {k} {j} {v} {w} {es} ne) =
      insert_comm k j (canonical_json v) (canonical_json w) (sort (canonical_entries es)) ne
  sort_of_SameEntries (steps p q) = sort_of_SameEntries p ∙ sort_of_SameEntries q

pub canonical_json-SameJson : (i j : Json) → SameJson i j → canonical_json i ≡ canonical_json j
canonical_json-SameJson i j p = canonical_of_SameJson p

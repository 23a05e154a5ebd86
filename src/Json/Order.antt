-- ===== src/Json/Order.antt =====
-- The order on texts that `<` of the language gives, and a stable sort by it.
use Prim.Native.Nat.{Ordering}
use pausemesh.Prelude.{
  Bool, true, false, ◌&&◌, ◌||◌, ◌≡◌, refl, ◌≢◌, ap, List, [], ◌∷◌, arith, ltb, ◌==◌, if◌then◌else◌,
}
use pausemesh.Prelude.Text.{Text}

-- `left < right` on strings: by code units, a proper prefix first.
unfoldable pub text_lt : Text → Text → Bool
text_lt _ [] = false
text_lt [] (b ∷ t) = true
text_lt (a ∷ s) (b ∷ t) = ltb a b || (a == b) && text_lt s t

-- -1, 1 and 0 are `lt`, `gt` and `eq`.
unfoldable pub compare_utf16 : Text → Text → Ordering
compare_utf16 left right =
    if text_lt left right
    then Ordering.lt
    else if text_lt right left
    then Ordering.gt
    else Ordering.eq

abbrev pub is_gt : Ordering → Bool
is_gt Ordering.gt = true
is_gt _ = false

module _ {ℓ} {V : Type ℓ} where
  -- Goes before the first entry that does not compare below it.
  unfoldable pub insert : Text → V → List (Text × V) → List (Text × V)
  insert k v [] = (k, v) ∷ []
  insert k v ((j, w) ∷ rest) =
      if is_gt (compare_utf16 k j) then (j, w) ∷ insert k v rest else (k, v) ∷ (j, w) ∷ rest

  -- `entries.sort(([left], [right]) => compareUtf16(left, right))`, which is stable.
  unfoldable pub sort : List (Text × V) → List (Text × V)
  sort [] = []
  sort ((k, v) ∷ rest) = insert k v (sort rest)

text_lt_irrefl : (s : Text) → text_lt s s ≡ false
unfolding text_lt
text_lt_irrefl [] = refl
text_lt_irrefl (a ∷ s) = ground (arith, text_lt_irrefl s)

pub text_lt_trans : (s t u : Text) → text_lt s t ≡ true → text_lt t u ≡ true → text_lt s u ≡ true
unfolding text_lt
text_lt_trans [] (b ∷ t) (c ∷ u) p q = refl
text_lt_trans (a ∷ s) (b ∷ t) (c ∷ u) p q = ground (arith, text_lt_trans s t u)
text_lt_trans s [] u p q = ground arith
text_lt_trans s (b ∷ t) [] p q = ground arith

pub text_lt_total : (s t : Text) → text_lt s t ≡ false → text_lt t s ≡ false → s ≡ t
unfolding text_lt
text_lt_total [] [] p q = refl
text_lt_total [] (b ∷ t) p q = ground arith
text_lt_total (a ∷ s) [] p q = ground arith
text_lt_total (a ∷ s) (b ∷ t) p q = ground (arith, text_lt_total s t)

text_lt_asym : (s t : Text) → text_lt s t ≡ true → text_lt t s ≡ false
unfolding text_lt
text_lt_asym [] (b ∷ t) p = refl
text_lt_asym (a ∷ s) (b ∷ t) p = ground (arith, text_lt_asym s t)
text_lt_asym s [] p = ground arith

is_gt-compare_utf16 : (s t : Text) → is_gt (compare_utf16 s t) ≡ text_lt t s
unfolding compare_utf16
is_gt-compare_utf16 s t = ground (arith, text_lt_asym s t)

module _ {ℓ} {V : Type ℓ} where
  -- Entries with different keys may be inserted in either order.
  pub insert_comm :
      (k j : Text) (v w : V) (l : List (Text × V))
      → k ≢ j
      → insert k v (insert j w l) ≡ insert j w (insert k v l)
  unfolding insert
  insert_comm k j v w [] ne =
      ground (
        arith,
        is_gt-compare_utf16 k j,
        is_gt-compare_utf16 j k,
        text_lt_asym k j,
        text_lt_total k j,
      )
  insert_comm k j v w ((i, x) ∷ l) ne = ground (
    arith,
    is_gt-compare_utf16 k j,
    is_gt-compare_utf16 j k,
    is_gt-compare_utf16 k i,
    is_gt-compare_utf16 j i,
    text_lt_asym k j,
    text_lt_total k j,
    text_lt_trans i k j,
    text_lt_trans i j k,
    insert_comm k j v w l ne,
  )

pub gt-apart : (s t : Text) → is_gt (compare_utf16 s t) ≡ true → s ≢ t
gt-apart s t h e = cc (h, is_gt-compare_utf16 s t, ap (text_lt t) e, text_lt_irrefl t)

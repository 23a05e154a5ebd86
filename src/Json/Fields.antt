-- ===== src/Json/Fields.antt =====
-- Reading the fields of a JSON object.
use pausemesh.Prelude.{
  ◌≡◌, Bool, true, ◌&&◌, false, ◌||◌, List, [], ◌∷◌, Option, none, some, if◌then◌else◌,
}
use pausemesh.Prelude.Text.{Text, text_eq}
use pausemesh.Json.{Json, null, bool, num, str, arr, obj, Entries, end, entry}

-- The keys of an object are distinct.
unfoldable pub field : Text → Entries → Option Json
field key end = none
field key (entry k v rest) = let other = field key rest in if text_eq key k then some v else other

unfoldable pub as_text : Option Json → Option Text
as_text (some (str s)) = some s
as_text _ = none

is_one_of : Text → List Text → Bool
is_one_of key [] = false
is_one_of key (k ∷ keys) = text_eq key k || is_one_of key keys

-- `.strict()`: no other key.
unfoldable pub only_keys : List Text → Entries → Bool
unfolding is_one_of
only_keys keys end = true
only_keys keys (entry k v rest) = is_one_of k keys && only_keys keys rest

pub as_text-str : (o : Option Json) {s : Text} → as_text o ≡ some s → o ≡ some (str s)
unfolding as_text
as_text-str none h = absurd (cc h)
as_text-str (some (str s)) h = cc h
as_text-str (some null) h = absurd (cc h)
as_text-str (some (bool b)) h = absurd (cc h)
as_text-str (some (num literal)) h = absurd (cc h)
as_text-str (some (arr xs)) h = absurd (cc h)
as_text-str (some (obj es)) h = absurd (cc h)

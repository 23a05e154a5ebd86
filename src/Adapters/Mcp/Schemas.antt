-- ===== src/Adapters/Mcp/Schemas.antt =====
-- The schemas of form fields in adapters/mcp/elicitation.ts: their definitions, as they are parsed,
-- and the tests of formats, which are the schema library's and the platform's.
use pausemesh.Prelude.{
  ℕ, suc, Bool, true, false, ◌&&◌, Option, none, some, List, [], ◌∷◌, Result, ok, err, ◌>>=◌, ◌>>◌,
  length, all, leb, ltb, ◌==◌, if◌then◌else◌,
}
use pausemesh.Prelude.Text.{Text, codes, text_eq, is_member, set_size}
use pausemesh.Json.{Json, bool, num, str, arr, obj, Items, nil, cons, Entries}
use pausemesh.Json.Fields.{field, only_keys}
use pausemesh.Storage.Numerals.{read_nat}
use pausemesh.Domain.Types.{max_safe_integer}
use pausemesh.Adapters.Protocol.{require}

pub data StringFormat : Type 0 where
  email uri date date_time : StringFormat

-- A bound that may be absent: `none` is no bound.
pub record Bounds : Type 0 where
  pub least : Option ℕ
  pub most : Option ℕ

-- A definition, without its texts for display. The enumerations of one choice are one case, and
-- so are those of several.
pub data McpPrimitiveSchemaDefinition : Type 0 where
  one_of : (allowed : List Text) → McpPrimitiveSchemaDefinition
  some_of : (allowed : List Text) (items : Bounds) → McpPrimitiveSchemaDefinition
  string : (lengths : Bounds) (format : Option StringFormat) → McpPrimitiveSchemaDefinition
  number : (integer : Bool) (minimum maximum : Option Text) → McpPrimitiveSchemaDefinition
  boolean : McpPrimitiveSchemaDefinition

pub record McpRequestedSchema : Type 0 where
  pub properties : List (Text × McpPrimitiveSchemaDefinition)
  pub required : List Text

-- A parse that fails says nothing else.
abbrev pub Parse {ℓ} : Type ℓ → Type ℓ
Parse A = Result (Unit {0}) A

unfoldable pub text_item : Json → Parse Text
text_item (str s) = ok s
text_item _ = err tt

unfoldable pub text_items : Items → Parse (List Text)
unfolding text_item
text_items nil = ok []
text_items (cons x xs) = do text ← text_item x; rest ← text_items xs; ok (text ∷ rest)

unfoldable pub text_list : Json → Parse (List Text)
text_list (arr xs) = text_items xs
text_list _ = err tt

-- `.min(1)`
unfoldable pub some_texts : Json → Parse (List Text)
some_texts json = do texts ← text_list json; require (leb 1 (length texts)) tt; ok texts

within_safe : Option ℕ → Parse ℕ
within_safe none = err tt
within_safe (some n) = if leb n max_safe_integer then ok n else err tt

-- `NonNegativeIntegerSchema`
unfoldable pub non_negative : Json → Parse ℕ
unfolding within_safe
non_negative (num literal) = within_safe (read_nat literal)
non_negative _ = err tt

unfoldable pub number_literal : Json → Parse Text
number_literal (num literal) = ok literal
number_literal _ = err tt

unfoldable pub boolean_value : Json → Parse Bool
boolean_value (bool b) = ok b
boolean_value _ = err tt

unfoldable pub format_name : Json → Parse StringFormat
format_name (str s) =
    if text_eq s (codes "email")
    then ok email
    else if text_eq s (codes "uri")
    then ok uri
    else if text_eq s (codes "date")
    then ok date
    else if text_eq s (codes "date-time")
    then ok date_time
    else err tt
format_name _ = err tt

-- `.optional()`
unfoldable pub optional {ℓ} : {A : Type ℓ} → (Json → Parse A) → Option Json → Parse (Option A)
optional read none = ok none
optional read (some json) = do a ← read json; ok (some a)

unfoldable pub present {ℓ} : {A : Type ℓ} → (Json → Parse A) → Option Json → Parse A
present read none = err tt
present read (some json) = read json

is_text : Text → Option Json → Bool
is_text expected (some (str s)) = text_eq s expected
is_text expected _ = false

-- A strict object of this type, with these keys beside the type and the texts for display.
unfoldable pub typed : Text → List Text → Entries → Parse (Unit {0})
unfolding is_text
typed name keys es = do
  require (is_text name (field (codes "type") es)) tt
  title ← optional text_item (field (codes "title") es)
  description ← optional text_item (field (codes "description") es)
  require
      (only_keys (codes "type" ∷ codes "title" ∷ codes "description" ∷ codes "default" ∷ keys) es)
      tt

-- `left !== undefined && right !== undefined && p(left, right)` is false.
unfoldable pub unless {ℓ} : {A B : Type ℓ} → (A → B → Bool) → Option A → Option B → Parse (Unit {0})
unless p (some a) (some b) = if p a b then err tt else ok tt
unless p _ _ = ok tt

-- `addRangeIssue` and `addLengthIssue` on counts
unfoldable pub ordered : Bounds → Parse (Unit {0})
ordered bounds = unless (λ l m. ltb m l) bounds.least bounds.most

unfoldable pub bounds_of : Text → Text → Entries → Parse Bounds
bounds_of least_key most_key es = do
  least ← optional non_negative (field least_key es)
  most ← optional non_negative (field most_key es)
  ok (record { least = least; most = most })

at_least : Option ℕ → ℕ → Bool
at_least none n = true
at_least (some l) n = leb l n

at_most : Option ℕ → ℕ → Bool
at_most none n = true
at_most (some m) n = leb n m

-- A count that no bound excludes.
unfoldable pub is_within : Bounds → ℕ → Bool
unfolding at_least at_most
is_within bounds n = at_least bounds.least n && at_most bounds.most n

-- A pair of surrogates is one character.
unfoldable pub unicode_length : Text → ℕ
unicode_length [] = 0
unicode_length (c ∷ []) = 1
unicode_length (c ∷ d ∷ rest) =
    let paired = suc (unicode_length rest) in
    let single = suc (unicode_length (d ∷ rest)) in
    if leb 0xd800 c && (leb c 0xdbff && (leb 0xdc00 d && leb d 0xdfff)) then paired else single

-- The values of an enumeration, which are distinct.
unfoldable pub distinct : List Text → Parse (Unit {0})
distinct values = require (set_size values == length values) tt

-- The default is one of the values.
unfoldable pub default_in : List Text → Option Text → Parse (Unit {0})
default_in values none = ok tt
default_in values (some text) = require (is_member text values) tt

unfoldable pub defaults_in : List Text → Bounds → Option (List Text) → Parse (Unit {0})
defaults_in values bounds none = ok tt
defaults_in values bounds (some texts) = do
  distinct texts
  require (all (λ t. is_member t values) texts) tt
  require (is_within bounds (length texts)) tt

-- `TitledEnumOptionSchema`
unfoldable pub titled_option : Json → Parse Text
titled_option (obj es) = do
  value ← present text_item (field (codes "const") es)
  title ← present text_item (field (codes "title") es)
  require (only_keys (codes "const" ∷ codes "title" ∷ []) es) tt
  ok value
titled_option _ = err tt

unfoldable pub titled_options : Items → Parse (List Text)
titled_options nil = ok []
titled_options (cons x xs) = do value ← titled_option x; rest ← titled_options xs; ok (value ∷ rest)

unfoldable pub some_options : Json → Parse (List Text)
some_options (arr xs) = do values ← titled_options xs; require (leb 1 (length values)) tt; ok values
some_options _ = err tt

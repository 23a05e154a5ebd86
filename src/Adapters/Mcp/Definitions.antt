-- ===== src/Adapters/Mcp/Definitions.antt =====
-- The union of the schemas of form fields in adapters/mcp/elicitation.ts, and the requested schema
-- of a form.
use pausemesh.Prelude.{
  Bool, true, false, not, ◌&&◌, ◌||◌, Option, none, some, List, [], ◌∷◌, map, ok, err, ◌>>=◌, ◌>>◌,
  length, all, ◌==◌, if◌then◌else◌,
}
use pausemesh.Prelude.Text.{Text, codes, text_eq, is_member}
use pausemesh.Json.{Json, obj, Entries, end, entry}
use pausemesh.Json.Fields.{field, only_keys}
use pausemesh.Json.Numbers.{number_lt, is_integer}
use pausemesh.Adapters.Protocol.{require}
use pausemesh.Adapters.Mcp.Schemas.{
  Bounds, McpPrimitiveSchemaDefinition, McpRequestedSchema, Parse, StringFormat, boolean,
  boolean_value, bounds_of, date, date_time, default_in, defaults_in, distinct, email, format_name,
  is_within, number, number_literal, one_of, optional, ordered, present, some_of, some_options,
  some_texts, string, text_item, text_list, typed, unicode_length, unless, uri,
}

-- The tests of formats that the schema library and the platform make.
pub record Formats : Type 0 where
  pub is_email : Text → Bool
  pub can_parse_url : Text → Bool
  pub is_iso_date : Text → Bool
  pub is_offset_datetime : Text → Bool

-- The names for display are as many as the values.
names_for : List Text → Option (List Text) → Parse (Unit {0})
names_for values none = ok tt
names_for values (some names) = require (length names == length values) tt

-- `McpLegacyTitledEnumSchema`, which accepts what `McpUntitledSingleEnumSchema` accepts.
unfoldable pub legacy_enum : Entries → Parse McpPrimitiveSchemaDefinition
unfolding names_for
legacy_enum es = do
  typed (codes "string") (codes "enum" ∷ codes "enumNames" ∷ []) es
  values ← present some_texts (field (codes "enum") es)
  names ← optional text_list (field (codes "enumNames") es)
  default ← optional text_item (field (codes "default") es)
  distinct values
  names_for values names
  default_in values default
  ok (one_of values)

-- `McpTitledSingleEnumSchema`
unfoldable pub titled_enum : Entries → Parse McpPrimitiveSchemaDefinition
titled_enum es = do
  typed (codes "string") (codes "oneOf" ∷ []) es
  values ← present some_options (field (codes "oneOf") es)
  default ← optional text_item (field (codes "default") es)
  distinct values
  default_in values default
  ok (one_of values)

-- The values of `items`, with a type and an enumeration, or with titles.
plain_items : Json → Parse (List Text)
plain_items (obj es) = do
  name ← present text_item (field (codes "type") es)
  require (text_eq name (codes "string")) tt
  values ← present some_texts (field (codes "enum") es)
  require (only_keys (codes "type" ∷ codes "enum" ∷ []) es) tt
  ok values
plain_items _ = err tt

titled_items : Json → Parse (List Text)
titled_items (obj es) = do
  values ← present some_options (field (codes "anyOf") es)
  require (only_keys (codes "anyOf" ∷ []) es) tt
  ok values
titled_items _ = err tt

-- `McpUntitledMultiEnumSchema` and `McpTitledMultiEnumSchema`
unfoldable pub multi_enum :
    (Json → Parse (List Text)) → Entries → Parse McpPrimitiveSchemaDefinition
multi_enum items es = do
  typed (codes "array") (codes "items" ∷ codes "minItems" ∷ codes "maxItems" ∷ []) es
  values ← present items (field (codes "items") es)
  bounds ← bounds_of (codes "minItems") (codes "maxItems") es
  default ← optional text_list (field (codes "default") es)
  ordered bounds
  distinct values
  defaults_in values bounds default
  ok (some_of values bounds)

module _ (formats : Formats) where
  -- `validateStringFormat`
  unfoldable pub validate_string_format : Text → StringFormat → Bool
  validate_string_format value email = formats.is_email value
  validate_string_format value uri = formats.can_parse_url value
  validate_string_format value date = formats.is_iso_date value
  validate_string_format value date_time = formats.is_offset_datetime value

  -- A text with a length and a format.
  unfoldable pub is_string_value : Bounds → Option StringFormat → Text → Bool
  is_string_value lengths none text = is_within lengths (unicode_length text)
  is_string_value lengths (some format) text =
      is_within lengths (unicode_length text) && validate_string_format text format

  default_string : Bounds → Option StringFormat → Option Text → Parse (Unit {0})
  default_string lengths format none = ok tt
  default_string lengths format (some text) = require (is_string_value lengths format text) tt

  -- `McpStringSchemaDefinitionSchema`
  unfoldable pub string_definition : Entries → Parse McpPrimitiveSchemaDefinition
  unfolding default_string
  string_definition es = do
    typed (codes "string") (codes "format" ∷ codes "minLength" ∷ codes "maxLength" ∷ []) es
    lengths ← bounds_of (codes "minLength") (codes "maxLength") es
    format ← optional format_name (field (codes "format") es)
    default ← optional text_item (field (codes "default") es)
    ordered lengths
    default_string lengths format default
    ok (string lengths format)

not_below : Option Text → Text → Bool
not_below none n = true
not_below (some l) n = not (number_lt n l)

not_above : Option Text → Text → Bool
not_above none n = true
not_above (some m) n = not (number_lt m n)

-- A number within its range, and an integer where one is asked for.
unfoldable pub is_number_value : Bool → Option Text → Option Text → Text → Bool
unfolding not_below not_above
is_number_value integer minimum maximum n =
    (not integer || is_integer n) && (not_below minimum n && not_above maximum n)

default_number : Bool → Option Text → Option Text → Option Text → Parse (Unit {0})
default_number integer minimum maximum none = ok tt
default_number integer minimum maximum (some n) =
    require (is_number_value integer minimum maximum n) tt

-- `McpNumberSchemaDefinitionSchema`, for one of its types
unfoldable pub number_definition : Bool → Entries → Parse McpPrimitiveSchemaDefinition
unfolding default_number
number_definition integer es = do
  typed (if integer then codes "integer" else codes "number")
      (codes "minimum" ∷ codes "maximum" ∷ []) es
  minimum ← optional number_literal (field (codes "minimum") es)
  maximum ← optional number_literal (field (codes "maximum") es)
  default ← optional number_literal (field (codes "default") es)
  unless (λ l m. number_lt m l) minimum maximum
  default_number integer minimum maximum default
  ok (number integer minimum maximum)

-- `McpBooleanSchemaDefinitionSchema`
unfoldable pub boolean_definition : Entries → Parse McpPrimitiveSchemaDefinition
boolean_definition es = do
  typed (codes "boolean") [] es
  default ← optional boolean_value (field (codes "default") es)
  ok boolean

-- The first that succeeds.
unfoldable pub or_else {ℓ} : {A : Type ℓ} → Parse A → Parse A → Parse A
or_else (ok a) other = ok a
or_else (err _) other = other

module _ (formats : Formats) where
  -- `McpPrimitiveSchemaDefinitionSchema`
  unfoldable pub primitive_definition : Json → Parse McpPrimitiveSchemaDefinition
  unfolding plain_items titled_items
  primitive_definition (obj es) = or_else (legacy_enum es) (
      or_else (titled_enum es) (
        or_else (multi_enum plain_items es) (
          or_else (multi_enum titled_items es) (
            or_else (string_definition formats es) (
              or_else (number_definition false es)
                (or_else (number_definition true es) (boolean_definition es)))))))
  primitive_definition _ = err tt

  unfoldable pub properties_of : Entries → Parse (List (Text × McpPrimitiveSchemaDefinition))
  properties_of end = ok []
  properties_of (entry key json es) = do
    definition ← primitive_definition json
    rest ← properties_of es
    ok ((key, definition) ∷ rest)

  property_map : Json → Parse (List (Text × McpPrimitiveSchemaDefinition))
  property_map (obj es) = properties_of es
  property_map _ = err tt

  keys_of : Option (List Text) → List Text
  keys_of none = []
  keys_of (some keys) = keys

  -- `McpRequestedSchemaSchema`
  unfoldable pub parse_requested_schema : Json → Parse McpRequestedSchema
  unfolding property_map keys_of
  parse_requested_schema (obj es) = do
    name ← present text_item (field (codes "type") es)
    require (text_eq name (codes "object")) tt
    dialect ← optional text_item (field (codes "$schema") es)
    properties ← present property_map (field (codes "properties") es)
    required ← optional text_list (field (codes "required") es)
    require
        (only_keys (codes "$schema" ∷ codes "properties" ∷ codes "required" ∷ codes "type" ∷ []) es)
        tt
    distinct (keys_of required)
    require
        (all (λ k. is_member k (map (λ (p : Text × McpPrimitiveSchemaDefinition). p.0) properties))
          (keys_of required))
        tt
    ok (record { properties = properties; required = keys_of required })
  parse_requested_schema _ = err tt

-- ===== src/Adapters/Mcp/Shown.antt =====
-- What the client of an issued request is shown, in terms of the continuation's payload and of the
-- declared capabilities of the client.
use pausemesh.Prelude.{
  ◌≡◌, ◌⊎◌, refl, inl, inr, true, false, ◌||◌, ◌&&◌, Bool, subst, ◌∙◌, ap, Option, none, some, ok,
  >>=-eq-ok, Bool-cases,
}
use pausemesh.Prelude.Text.{Text, codes, text_eq→eq}
use pausemesh.Json.{Json, null, bool, num, str, arr, obj, Entries, end, entry}
use pausemesh.Json.Fields.{field, as_text, as_text-str}
use pausemesh.Domain.Types.{ContinuationEnvelope, Lifecycle}
use pausemesh.Adapters.Payloads.{PayloadKind, IsKind, payload_message, payload_message-ok}
use pausemesh.Adapters.Protocol.{require, require-ok}
use pausemesh.Adapters.Mcp.Urls.{McpProjectionPolicy, McpUrlBinding, Url}
use pausemesh.Adapters.Mcp.Definitions.{Formats, parse_requested_schema}
use pausemesh.Adapters.Mcp.Requests.{
  ContinuationPayload, McpElicitRequest, McpProjectionContext, Mode, Params, parse_boundary,
  fields_of, is_absent, is_kind, message_of, parse_payload, parsed_schema,
}
use pausemesh.Adapters.Mcp.Issuing.{
  Environment, capability_of, is_declared, is_empty, is_object, mode_supported, parse_capabilities,
  projection_metadata, require_mode_capability, schema_or, supports, to_mcp_elicit_request,
}
use pausemesh.Adapters.Mcp.Issued.{
  Projects, consent, form, parse_boundary-ok, to_mcp_elicit_request-IsRequestFor,
}
use pausemesh.Adapters.Mcp.Trust.{IsTrusted}

-- The client declared the capability of elicitation by this object.
pub record Declares (capabilities : Json) (elicitation : Entries) : Type 0 where
  pub declared : Entries
  pub object : capabilities ≡ obj declared
  pub given : field (codes "elicitation") declared ≡ some (obj elicitation)

-- What the client declared of a mode; an empty declaration stands for forms.
pub IsAble : Mode → Json → Type 0
IsAble Mode.url capabilities =
    (es : Entries) × Declares capabilities es × (json : Json) × (field (codes "url") es ≡ some json)
IsAble Mode.form capabilities =
    (es : Entries) × Declares capabilities es
    × ((es ≡ end) ⊎ ((json : Json) × (field (codes "form") es ≡ some json)))

is_declared-some : (o : Option Json) → is_declared o ≡ true → (json : Json) × (o ≡ some json)
unfolding is_declared
is_declared-some none h = absurd (cc h)
is_declared-some (some json) h = (json, refl)

is_empty-end : (es : Entries) → is_empty es ≡ true → es ≡ end
unfolding is_empty
is_empty-end end h = refl
is_empty-end (entry k v es) h = absurd (cc h)

capability_of-some :
    (o : Option Json) {es : Entries} → capability_of o ≡ ok (some es) → o ≡ some (obj es)
unfolding capability_of
capability_of-some none h = absurd (cc h)
capability_of-some (some (obj es)) h =
    let (_, _, h1) =
      >>=-eq-ok
        (require (is_object (field (codes "form") es) && is_object (field (codes "url") es)) tt) _
        h in
    let same : es ≡ _ = cc h1 in ap (λ q. some (obj q)) same
capability_of-some (some null) h = absurd (cc h)
capability_of-some (some (bool b)) h = absurd (cc h)
capability_of-some (some (num literal)) h = absurd (cc h)
capability_of-some (some (str s)) h = absurd (cc h)
capability_of-some (some (arr xs)) h = absurd (cc h)

parse_capabilities-Declares :
    (capabilities : Json) {es : Entries}
    → parse_capabilities capabilities ≡ ok (some es)
    → Declares capabilities es
unfolding parse_capabilities
parse_capabilities-Declares (obj es) h = record {
  declared = es;
  object = refl;
  given = capability_of-some _ h;
}
parse_capabilities-Declares null h = absurd (cc h)
parse_capabilities-Declares (bool b) h = absurd (cc h)
parse_capabilities-Declares (num literal) h = absurd (cc h)
parse_capabilities-Declares (str s) h = absurd (cc h)
parse_capabilities-Declares (arr xs) h = absurd (cc h)

supported-IsAble :
    (mode : Mode) (capabilities : Json) (es : Entries)
    → Declares capabilities es
    → supports mode es ≡ true
    → IsAble mode capabilities
unfolding supports IsAble
supported-IsAble Mode.url capabilities es d h =
    let (json, given) = is_declared-some _ h in (es, d, json, given)
supported-IsAble Mode.form capabilities es d h =
    elim (Bool-cases (is_declared (field (codes "form") es))) [
      | inl given ↦ (es, d, inr (is_declared-some _ given))
      | inr missing ↦ (es, d, inl (is_empty-end es (rw missing at h)))
    ]

mode_supported-some :
    (mode : Mode) (o : Option Entries)
    → mode_supported mode o ≡ ok tt
    → (es : Entries) × (o ≡ some es) × (supports mode es ≡ true)
unfolding mode_supported
mode_supported-some mode none h = absurd (cc h)
mode_supported-some mode (some es) h = (es, refl, require-ok _ _ h)

require_mode_capability-IsAble :
    (mode : Mode) (capabilities : Json)
    → require_mode_capability capabilities mode ≡ ok tt
    → IsAble mode capabilities
unfolding require_mode_capability
require_mode_capability-IsAble mode capabilities h =
    let (o, parsed, h1) = >>=-eq-ok (parse_boundary _ (parse_capabilities capabilities)) _ h in
    let (es, e, able) = mode_supported-some mode o h1 in
    let declared : parse_capabilities capabilities ≡ ok (some es) =
      rw e at (parse_boundary-ok _ _ parsed) in
    supported-IsAble mode capabilities es (parse_capabilities-Declares capabilities declared) able

is_kind-eq : (kind : Text) (o : Option Json) → is_kind kind o ≡ true → o ≡ some (str kind)
unfolding is_kind
is_kind-eq kind none h = absurd (cc h)
is_kind-eq kind (some (str s)) h = ap (λ t. some (str t)) (text_eq→eq s kind h)
is_kind-eq kind (some null) h = absurd (cc h)
is_kind-eq kind (some (bool b)) h = absurd (cc h)
is_kind-eq kind (some (num literal)) h = absurd (cc h)
is_kind-eq kind (some (arr xs)) h = absurd (cc h)
is_kind-eq kind (some (obj es)) h = absurd (cc h)

is_absent-none : (o : Option Json) → is_absent o ≡ true → o ≡ none
unfolding is_absent
is_absent-none none h = refl
is_absent-none (some json) h = absurd (cc h)

input-IsKind :
    (o : Option Json)
    → (is_absent o || is_kind (codes "input") o) ≡ true
    → IsKind PayloadKind.input o
unfolding IsKind
input-IsKind o h = elim (Bool-cases (is_absent o)) [
  | inl missing ↦ inl (is_absent-none o missing)
  | inr given ↦ inr (is_kind-eq (codes "input") o (rw given at h))
]

-- What the fields of a payload say: an authorization has no schema.
pub data Says (fields : Entries) : ContinuationPayload → Type 0 where
  authorizes :
      (message : Text)
      → IsKind PayloadKind.authorization (field (codes "kind") fields)
      → field (codes "responseSchema") fields ≡ none
      → Says fields (ContinuationPayload.authorization message)
  asks :
      (message : Text)
      → IsKind PayloadKind.input (field (codes "kind") fields)
      → Says fields (ContinuationPayload.input message (field (codes "responseSchema") fields))

abbrev message_in : ContinuationPayload → Text
message_in (ContinuationPayload.authorization message) = message
message_in (ContinuationPayload.input message schema) = message

module _ (formats : Formats) where
  parsed_schema-same :
      (o : Option Json) {schema : Option Json} → parsed_schema formats o ≡ ok schema → o ≡ schema
  unfolding parsed_schema
  parsed_schema-same none h = cc h
  parsed_schema-same (some json) h =
      let (_, _, h1) = >>=-eq-ok (parse_requested_schema formats json) _ h in cc h1

  fields_of-Says :
      (authorizing : Bool) (message : Text) (es : Entries) {payload : ContinuationPayload}
      → is_kind (codes "authorization") (field (codes "kind") es) ≡ authorizing
      → fields_of formats authorizing message es ≡ ok payload
      → Says es payload × (message_in payload ≡ message)
  unfolding fields_of IsKind
  fields_of-Says true message es e h =
      let (_, bare, h1) =
        >>=-eq-ok (require (is_absent (field (codes "responseSchema") es)) tt) _ h in
      let same : ContinuationPayload.authorization message ≡ _ = cc h1 in
      subst (λ p. Says es p × (message_in p ≡ message)) same
        (authorizes message (is_kind-eq _ _ e) (is_absent-none _ (require-ok _ _ bare)), refl)
  fields_of-Says false message es e h =
      let kind = field (codes "kind") es in
      let (_, asking, h1) =
        >>=-eq-ok (require (is_absent kind || is_kind (codes "input") kind) tt) _ h in
      let (schema, parsed, h2) =
        >>=-eq-ok (parsed_schema formats (field (codes "responseSchema") es)) _ h1 in
      let own = parsed_schema-same (field (codes "responseSchema") es) parsed in
      let same : ContinuationPayload.input message (field (codes "responseSchema") es) ≡ _ =
        ap (ContinuationPayload.input message) own ∙ cc h2 in
      subst (λ p. Says es p × (message_in p ≡ message)) same
        (asks message (input-IsKind kind (require-ok _ _ asking)), refl)

  message_of-some :
      (o : Option Text) {message : Text} → message_of formats o ≡ ok message → o ≡ some message
  unfolding message_of
  message_of-some none h = absurd (cc h)
  message_of-some (some s) h = cc h

  parse_payload-Says :
      (json : Json) {payload : ContinuationPayload}
      → parse_payload formats json ≡ ok payload
      → (fields : Entries) × (json ≡ obj fields)
        × (field (codes "message") fields ≡ some (str (message_in payload)))
        × Says fields payload
  unfolding parse_payload
  parse_payload-Says (obj es) {payload} h =
      let (message, given, h1) =
        >>=-eq-ok (message_of formats (payload_message (as_text (field (codes "message") es)))) _
          h in
      let (says, same) =
        fields_of-Says (is_kind (codes "authorization") (field (codes "kind") es)) message es refl
          h1 in
      let (said, _) = payload_message-ok _ (message_of-some _ given) in
      (es, refl, rw same (as_text-str _ said), says)
  parse_payload-Says null h = absurd (cc h)
  parse_payload-Says (bool b) h = absurd (cc h)
  parse_payload-Says (num literal) h = absurd (cc h)
  parse_payload-Says (str s) h = absurd (cc h)
  parse_payload-Says (arr xs) h = absurd (cc h)

module _ (env : Environment) (c : ContinuationEnvelope) (context : McpProjectionContext)
    (policy : McpProjectionPolicy) where
  -- What a payload with these fields sends the client to: an authorization to the bound URL, an
  -- input to a form of its own schema, or of the schema of an object without properties.
  pub data Shows (fields : Entries) : Params → Type 0 where
    shows_url :
        (binding : McpUrlBinding) (url : Url)
        → IsKind PayloadKind.authorization (field (codes "kind") fields)
        → field (codes "responseSchema") fields ≡ none
        → IsAble Mode.url context.client_capabilities
        → context.url_binding ≡ some binding
        → env.parse_url binding.url ≡ some url
        → IsTrusted policy url
        → Shows fields (Params.url binding.elicitation_id binding.url)
    shows_form :
        (schema : Json)
        → IsKind PayloadKind.input (field (codes "kind") fields)
        → IsAble Mode.form context.client_capabilities
        → context.url_binding ≡ none
        → (field (codes "responseSchema") fields ≡ some schema)
          ⊎ (field (codes "responseSchema") fields ≡ none)
            × (schema
                ≡ obj (
                    entry
                      (codes "type")
                      (str (codes "object"))
                      (entry (codes "properties") (obj end) end)))
        → Shows fields (Params.form schema)

  -- The request shows the message of the continuation, and refers to it and to the context.
  pub record IsShown (r : McpElicitRequest) : Type 0 where
    pub hash : Text
    pub pending : c.lifecycle ≡ Lifecycle.pending hash
    pub fields : Entries
    pub object : c.payload ≡ obj fields
    pub said : field (codes "message") fields ≡ some (str r.message)
    pub shows : Shows fields r.params
    pub id : r.id ≡ context.request_id
    pub continuation : r.meta.continuation_id ≡ c.continuation_id
    pub correlation : r.meta.correlation_id ≡ c.correlation_id
    pub expires : r.meta.expires_at ≡ c.expires_at
    pub request : r.meta.request_id ≡ context.request_id
    pub task : r.meta.task_id ≡ context.related_task

  form_schema :
      (schema : Option Json)
      → (schema ≡ some (schema_or schema))
        ⊎ (schema ≡ none)
          × (schema_or schema
              ≡ obj (
                  entry
                    (codes "type")
                    (str (codes "object"))
                    (entry (codes "properties") (obj end) end)))
  form_schema none = inr (refl, refl)
  form_schema (some schema) = inl refl

  shown :
      (fields : Entries) (payload : ContinuationPayload) (r : McpElicitRequest) (hash : Text)
      → c.lifecycle ≡ Lifecycle.pending hash
      → c.payload ≡ obj fields
      → field (codes "message") fields ≡ some (str (message_in payload))
      → Says fields payload
      → Projects env c context policy payload r
      → IsShown r
  unfolding projection_metadata
  shown fields _ _ hash pending object said (authorizes message kind bare)
        (consent _ binding url able bound parsed trusted) =
      record {
        hash = hash;
        pending = pending;
        fields = fields;
        object = object;
        said = said;
        shows =
            shows_url binding url kind bare (require_mode_capability-IsAble _ _ able) bound parsed
              trusted;
        id = refl;
        continuation = refl;
        correlation = refl;
        expires = refl;
        request = refl;
        task = refl;
      }
  shown fields _ _ hash pending object said (asks message kind) (form _ schema able unbound) =
      record {
        hash = hash;
        pending = pending;
        fields = fields;
        object = object;
        said = said;
        shows =
            shows_form (schema_or schema) kind (require_mode_capability-IsAble _ _ able) unbound
              (form_schema schema);
        id = refl;
        continuation = refl;
        correlation = refl;
        expires = refl;
        request = refl;
        task = refl;
      }

  -- A request is made for a pending continuation, and shows the message of its payload. For an
  -- authorization, which has no schema, it sends a client that declared support for URLs to the
  -- bound URL, which is trusted; for an input, it shows a client that declared support for forms, or
  -- declared the capability without a mode, a form of the payload's own schema, or of the schema of
  -- an object without properties where it has none, and no URL is bound. It bears the identifier of
  -- the context, and refers to the continuation.
  pub to_mcp_elicit_request-IsShown :
      (r : McpElicitRequest) → to_mcp_elicit_request env c context policy ≡ ok r → IsShown r
  to_mcp_elicit_request-IsShown r h =
      let i = to_mcp_elicit_request-IsRequestFor env c context policy r h in
      let (fields, object, said, says) = parse_payload-Says env.formats c.payload i.parsed in
      shown fields i.payload r i.hash i.pending object said says i.projects

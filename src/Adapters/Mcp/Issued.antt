-- ===== src/Adapters/Mcp/Issued.antt =====
-- What an issued request is, and that it is bound to its continuation, before and after it ended.
use pausemesh.Prelude.{◌≡◌, refl, subst, true, Option, none, some, ok, err, >>=-eq-ok, arith}
use pausemesh.Prelude.Text.{Text, text_eq_refl}
use pausemesh.Json.{Json}
use pausemesh.Domain.Types.{ContinuationEnvelope, Lifecycle}
use pausemesh.Adapters.Protocol.{
  ProtocolAdapterErrorCode, invalid_protocol_binding, invalid_protocol_message, require, require-ok,
}
use pausemesh.Adapters.Mcp.Urls.{McpProjectionPolicy, McpUrlBinding, Url, validate_url_binding}
use pausemesh.Adapters.Mcp.Schemas.{Parse}
use pausemesh.Adapters.Mcp.Requests.{
  ContinuationPayload, McpElicitRequest, McpProjectionContext, McpRequestId, Mode, Params,
  is_request, mode_eq, parse_boundary, parse_payload, request_id_eq, require_pending,
}
use pausemesh.Adapters.Mcp.Issuing.{
  Environment, bound_url, check_context, checked_request, no_url, project_payload, request_of,
  require_mode_capability, schema_or, to_mcp_elicit_request,
}
use pausemesh.Adapters.Mcp.Trust.{IsTrusted, validate_url_binding_iff}

pub pending_of :
    (l : Lifecycle) → require_pending l ≡ ok tt → (hash : Text) × (l ≡ Lifecycle.pending hash)
unfolding require_pending
pending_of (Lifecycle.pending hash) h = (hash, refl)
pending_of (Lifecycle.resumed at key payload) h = absurd (cc h)
pending_of (Lifecycle.cancelled at reason) h = absurd (cc h)
pending_of (Lifecycle.expired at) h = absurd (cc h)

pub parse_boundary-ok {ℓ} :
    {A : Type ℓ} (code : ProtocolAdapterErrorCode) (p : Parse A) {a : A}
    → parse_boundary code p ≡ ok a
    → p ≡ ok a
unfolding parse_boundary
parse_boundary-ok code (ok b) h = ground arith
parse_boundary-ok code (err _) h = absurd (cc h)

bound_url-ok : (o : Option McpUrlBinding) {b : McpUrlBinding} → bound_url o ≡ ok b → o ≡ some b
unfolding bound_url
bound_url-ok none h = absurd (cc h)
bound_url-ok (some c) h = ground arith

no_url-ok : (o : Option McpUrlBinding) → no_url o ≡ ok tt → o ≡ none
unfolding no_url
no_url-ok none h = refl
no_url-ok (some b) h = absurd (cc h)

pub request_id_eq_refl : (id : McpRequestId) → request_id_eq id id ≡ true
unfolding request_id_eq
request_id_eq_refl (McpRequestId.text s) = text_eq_refl s
request_id_eq_refl (McpRequestId.number s) = text_eq_refl s

pub mode_eq_refl : (m : Mode) → mode_eq m m ≡ true
unfolding mode_eq
mode_eq_refl Mode.form = refl
mode_eq_refl Mode.url = refl

module _ (env : Environment) (c : ContinuationEnvelope) (context : McpProjectionContext)
    (policy : McpProjectionPolicy) where
  -- The request for a payload: a client that supports URLs is sent to a trusted one for an
  -- authorization, and one that supports forms gets a form for an input.
  pub data Projects : ContinuationPayload → McpElicitRequest → Type 0 where
    consent :
        (message : Text) (binding : McpUrlBinding) (url : Url)
        → require_mode_capability context.client_capabilities Mode.url ≡ ok tt
        → context.url_binding ≡ some binding
        → env.parse_url binding.url ≡ some url
        → IsTrusted policy url
        → Projects
            (ContinuationPayload.authorization message)
            (request_of env c context message (Params.url binding.elicitation_id binding.url))
    form :
        (message : Text) (schema : Option Json)
        → require_mode_capability context.client_capabilities Mode.form ≡ ok tt
        → context.url_binding ≡ none
        → Projects
            (ContinuationPayload.input message schema)
            (request_of env c context message (Params.form (schema_or schema)))

  checked_request-ok :
      (r : McpElicitRequest) {s : McpElicitRequest}
      → checked_request env r ≡ ok s
      → (r ≡ s) × (is_request env.formats s ≡ true)
  unfolding checked_request
  checked_request-ok r h =
      let (_, fits, h1) = >>=-eq-ok (require (is_request env.formats r) _) _ h in
      let same : r ≡ _ = cc h1 in
      (same, subst (λ q. is_request env.formats q ≡ true) same (require-ok _ _ fits))

  project_payload-Projects :
      (payload : ContinuationPayload) (r : McpElicitRequest)
      → project_payload env c context policy payload ≡ ok r
      → Projects payload r × (is_request env.formats r ≡ true)
  unfolding project_payload
  project_payload-Projects (ContinuationPayload.authorization message) r h =
      let (_, able, h1) =
        >>=-eq-ok (require_mode_capability context.client_capabilities Mode.url) _ h in
      let (binding, hb, h2) = >>=-eq-ok (bound_url context.url_binding) _ h1 in
      let (_, hv, h3) = >>=-eq-ok (validate_url_binding env.parse_url binding policy) _ h2 in
      let (url, parsed, trusted) = (validate_url_binding_iff env.parse_url policy binding).0 hv in
      let (same, fits) = checked_request-ok _ h3 in
      (
        subst (Projects (ContinuationPayload.authorization message)) same
            (consent message binding url able (bound_url-ok _ hb) parsed trusted),
        fits,
      )
  project_payload-Projects (ContinuationPayload.input message schema) r h =
      let (_, able, h1) =
        >>=-eq-ok (require_mode_capability context.client_capabilities Mode.form) _ h in
      let (_, hb, h2) = >>=-eq-ok (no_url context.url_binding) _ h1 in
      let (same, fits) = checked_request-ok _ h2 in
      (
        subst (Projects (ContinuationPayload.input message schema)) same
            (form message schema able (no_url-ok _ hb)),
        fits,
      )

  pub record IsRequestFor (r : McpElicitRequest) : Type 0 where
    pub hash : Text
    pub pending : c.lifecycle ≡ Lifecycle.pending hash
    pub payload : ContinuationPayload
    pub parsed : parse_payload env.formats c.payload ≡ ok payload
    pub projects : Projects payload r
    pub fits : is_request env.formats r ≡ true

  pub to_mcp_elicit_request-IsRequestFor :
      (r : McpElicitRequest) → to_mcp_elicit_request env c context policy ≡ ok r → IsRequestFor r
  unfolding to_mcp_elicit_request
  to_mcp_elicit_request-IsRequestFor r h =
      let (_, pending, h1) = >>=-eq-ok (require_pending c.lifecycle) _ h in
      let (payload, parsed, h2) =
        >>=-eq-ok (parse_boundary invalid_protocol_message (parse_payload env.formats c.payload)) _
          h1 in
      let (_, context_ok, h3) =
        >>=-eq-ok (parse_boundary invalid_protocol_binding (check_context context)) _ h2 in
      let (hash, e) = pending_of c.lifecycle pending in
      let (projects, fits) = project_payload-Projects payload r h3 in
      record {
        hash = hash;
        pending = e;
        payload = payload;
        parsed = parse_boundary-ok _ _ parsed;
        projects = projects;
        fits = fits;
      }

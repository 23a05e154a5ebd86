-- ===== src/Adapters/Mcp/Outcomes.antt =====
-- What a result of a client is taken for.
use mathlib.Core.Bool.{and-eq-true_iff}
use pausemesh.Prelude.{
  ◌≡◌, ◌≢◌, refl, true, Option, none, some, List, [], ◌∷◌, map, all, All, ok, ◌>>=◌, >>=-eq-ok,
  subst, Option-cases, inl, inr, arith,
}
use pausemesh.Prelude.Text.{Text, is_member}
use pausemesh.Json.{Json, Entries, end, entry}
use pausemesh.Domain.Types.{ContinuationEnvelope, ContinuationStatus, status}
use pausemesh.Adapters.Protocol.{
  invalid_protocol_binding, invalid_protocol_message, require, require-ok,
}
use pausemesh.Adapters.Mcp.Schemas.{McpPrimitiveSchemaDefinition, McpRequestedSchema}
use pausemesh.Adapters.Mcp.Definitions.{Formats, parse_requested_schema}
use pausemesh.Adapters.Mcp.Requests.{
  McpElicitRequest, McpElicitationReceipt, Params, is_request, parse_boundary, require_pending,
}
use pausemesh.Adapters.Mcp.Issuing.{Environment}
use pausemesh.Adapters.Mcp.Issued.{parse_boundary-ok, pending_of}
use pausemesh.Adapters.Mcp.Results.{
  Action, McpElicitResult, McpElicitationOutcome, accept, accepted, all_fit, cancel, decline,
  definition_of, field_value_is_valid, form_outcome, keys, no_content, outcome_of,
  parse_mcp_elicit_result, parse_result, refused, require_issuance_receipt, require_request_binding,
  some_content, url_consent, validated_form_content,
}

module _ (formats : Formats) where
  -- Every field of the content is declared, with a value that its definition admits.
  pub AllDeclared : List (Text × McpPrimitiveSchemaDefinition) → Entries → Type 0
  AllDeclared properties end = Unit
  AllDeclared properties (entry key json es) =
      ((definition : McpPrimitiveSchemaDefinition) × (definition_of key properties
          ≡ some definition)
        × (field_value_is_valid formats json definition ≡ true))
      × AllDeclared properties es

  pub IsPresent : Entries → Text → Type 0
  IsPresent content key = is_member key (keys content) ≡ true

  -- The content that a schema admits.
  pub record IsContent (schema : McpRequestedSchema) (content : Entries) : Type 0 where
    pub declared : AllDeclared schema.properties content
    pub complete : All (IsPresent content) schema.required

  -- The outcome of an action and its content, for a request.
  pub data IsOutcome : Params → Action → Option Entries → McpElicitationOutcome → Type 0 where
    consents :
        (id target : Text) (action : Action)
        → IsOutcome (Params.url id target) action none (url_consent action id)
    refuses :
        (requested : Json) (action : Action)
        → action ≢ accept
        → IsOutcome (Params.form requested) action none (refused action)
    accepts :
        (requested : Json) (schema : McpRequestedSchema) (content : Entries)
        → parse_requested_schema formats requested ≡ ok schema
        → IsContent schema content
        → IsOutcome (Params.form requested) accept (some content) (accepted content)

  all_fit-AllDeclared :
      (properties : List (Text × McpPrimitiveSchemaDefinition)) (content : Entries)
      → all_fit formats properties content ≡ true
      → AllDeclared properties content
  unfolding all_fit AllDeclared
  all_fit-AllDeclared properties end h = tt
  all_fit-AllDeclared properties (entry key json es) h =
      elim (Option-cases (definition_of key properties)) [
        | inl missing ↦ absurd (cc (rw missing at h))
        | inr (definition, e) ↦
            let (valid, rest) = (and-eq-true_iff _ _).0 (rw e at h) in
            ((definition, e, valid), all_fit-AllDeclared properties es rest)
      ]

  all-IsPresent :
      (content : Entries) (required : List Text)
      → all (λ k. is_member k (keys content)) required ≡ true
      → All (IsPresent content) required
  unfolding IsPresent
  all-IsPresent content [] h = tt
  all-IsPresent content (k ∷ ks) h =
      let (here, rest) = (and-eq-true_iff _ _).0 h in (here, all-IsPresent content ks rest)

  validated_form_content-IsContent :
      (content : Entries) (schema : McpRequestedSchema) {given : Entries}
      → validated_form_content formats content schema ≡ ok given
      → (content ≡ given) × IsContent schema content
  unfolding validated_form_content
  validated_form_content-IsContent content schema h =
      let (_, _, h1) =
        >>=-eq-ok
          (require
            (all
              (λ k.
                is_member k
                  (map (λ (p : Text × McpPrimitiveSchemaDefinition). p.0) schema.properties))
              (keys content))
            _)
          _ h in
      let (_, complete, h2) =
        >>=-eq-ok (require (all (λ k. is_member k (keys content)) schema.required) _) _ h1 in
      let (_, fit, h3) = >>=-eq-ok (require (all_fit formats schema.properties content) _) _ h2 in
      (
        cc h3,
        record {
          declared = all_fit-AllDeclared schema.properties content (require-ok _ _ fit);
          complete = all-IsPresent content schema.required (require-ok _ _ complete);
        },
      )

  no_content-ok : (o : Option Entries) → no_content o ≡ ok tt → o ≡ none
  unfolding no_content
  no_content-ok none h = refl
  no_content-ok (some content) h = absurd (cc h)

  some_content-ok :
      (o : Option Entries) {content : Entries} → some_content o ≡ ok content → o ≡ some content
  unfolding some_content
  some_content-ok none h = absurd (cc h)
  some_content-ok (some content) h = ground arith

  refused-IsOutcome :
      (requested : Json) (action : Action) (content : Option Entries) {o : McpElicitationOutcome}
      → action ≢ accept
      → (no_content content >>= λ done. ok (refused action)) ≡ ok o
      → IsOutcome (Params.form requested) action content o
  refused-IsOutcome requested action content ne h =
      let (_, absent, h1) = >>=-eq-ok (no_content content) _ h in
      rw (no_content-ok content absent) (
        subst (IsOutcome (Params.form requested) action none) (cc h1) (refuses requested action ne))

  form_outcome-IsOutcome :
      (requested : Json) (action : Action) (content : Option Entries) (o : McpElicitationOutcome)
      → form_outcome formats requested action content ≡ ok o
      → IsOutcome (Params.form requested) action content o
  unfolding form_outcome
  form_outcome-IsOutcome requested accept content o h =
      let (given, hg, h1) = >>=-eq-ok (some_content content) _ h in
      let (schema, parsed, h2) =
        >>=-eq-ok
          (parse_boundary invalid_protocol_binding (parse_requested_schema formats requested)) _
          h1 in
      let (valid, checked, h3) = >>=-eq-ok (validated_form_content formats given schema) _ h2 in
      let (same, fit) = validated_form_content-IsContent given schema checked in
      let outcome : accepted given ≡ o = cc (same, h3) in
      rw (some_content-ok content hg) (
        subst (IsOutcome (Params.form requested) accept (some given)) outcome
          (accepts requested schema given (parse_boundary-ok _ _ parsed) fit))
  form_outcome-IsOutcome requested decline content o h =
      refused-IsOutcome requested decline content (λ e. cc e) h
  form_outcome-IsOutcome requested cancel content o h =
      refused-IsOutcome requested cancel content (λ e. cc e) h

  outcome_of-IsOutcome :
      (params : Params) (result : McpElicitResult) (o : McpElicitationOutcome)
      → outcome_of formats params result ≡ ok o
      → IsOutcome params result.action result.content o
  unfolding outcome_of
  outcome_of-IsOutcome (Params.url id target) result o h =
      let (_, absent, h1) = >>=-eq-ok (no_content result.content) _ h in
      rw (no_content-ok result.content absent) (
        subst (IsOutcome (Params.url id target) result.action none) (cc h1)
          (consents id target result.action))
  outcome_of-IsOutcome (Params.form requested) result o h =
      form_outcome-IsOutcome requested result.action result.content o h

module _ (env : Environment) where
  -- A result is taken only while the continuation is pending, for a request that is bound to it and
  -- has the receipt of its issuance. A request for consent yields the action of the result,
  -- which has no content. A form yields a refusal, without content, or the content of the result, which
  -- the schema of the request admits: every field is declared and valid, every required one is there.
  pub parse_mcp_elicit_result-IsOutcome :
      (c : ContinuationEnvelope) (request : McpElicitRequest)
      (receipt : Option McpElicitationReceipt) (raw_result : Json) (o : McpElicitationOutcome)
      → parse_mcp_elicit_result env c request receipt raw_result ≡ ok o
      → (status c ≡ ContinuationStatus.pending)
        × (require_request_binding env c request ≡ ok tt)
        × (require_issuance_receipt env c request receipt ≡ ok tt)
        × ((result : McpElicitResult) × (parse_result raw_result ≡ ok result)
            × IsOutcome env.formats request.params result.action result.content o)
  unfolding parse_mcp_elicit_result
  parse_mcp_elicit_result-IsOutcome c request receipt raw_result o h =
      let (_, pending, h1) = >>=-eq-ok (require_pending c.lifecycle) _ h in
      let (_, _, h2) = >>=-eq-ok (require (is_request env.formats request) _) _ h1 in
      let (_, bound, h3) = >>=-eq-ok (require_request_binding env c request) _ h2 in
      let (_, sealed, h4) = >>=-eq-ok (require_issuance_receipt env c request receipt) _ h3 in
      let (result, read, h5) =
        >>=-eq-ok (parse_boundary invalid_protocol_message (parse_result raw_result)) _ h4 in
      let (hash, e) = pending_of c.lifecycle pending in
      (
        rw e refl,
        bound,
        sealed,
        (
          result,
          parse_boundary-ok _ _ read,
          outcome_of-IsOutcome env.formats request.params result o h5,
        ),
      )

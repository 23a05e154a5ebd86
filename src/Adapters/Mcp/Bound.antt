-- ===== src/Adapters/Mcp/Bound.antt =====
-- An issued request is bound to its continuation, while it is pending and after it ended.
use pausemesh.Prelude.{◌≡◌, refl, ap, subst, true, some, ok, ◌>>=◌, >>=-eq-ok, ==_iff}
use pausemesh.Prelude.Text.{Text, text_eq_refl}
use pausemesh.Json.{Json}
use pausemesh.Json.Canonical.{canonical_json}
use pausemesh.Domain.Types.{ContinuationEnvelope, Lifecycle}
use pausemesh.Domain.Events.{ContinuationEvent, EventBody}
use pausemesh.Domain.Reducer.Steps.{Closes, SameRequest, Transition}
use pausemesh.Adapters.Protocol.{invalid_protocol_message, require, require-ok}
use pausemesh.Adapters.Mcp.Urls.{McpProjectionPolicy}
use pausemesh.Adapters.Mcp.Requests.{
  ContinuationPayload, McpElicitRequest, McpElicitationIssuance, McpProjectionContext, Params,
  is_receipt, mode_of, parse_boundary, request_hash, require_pending,
}
use pausemesh.Adapters.Mcp.Issuing.{
  Environment, create_mcp_elicitation_receipt, issue_mcp_elicitation, projection_metadata,
  schema_or, to_mcp_elicit_request,
}
use pausemesh.Adapters.Mcp.Issued.{
  IsRequestFor, Projects, consent, form, mode_eq_refl, request_id_eq_refl,
  to_mcp_elicit_request-IsRequestFor,
}
use pausemesh.Adapters.Mcp.Results.{
  metadata_matches, outcome_of, parse_mcp_elicit_result, parse_result, payload_matches,
  receipt_matches, require_issuance_receipt, require_request_binding, require_resumed, consent_id,
  to_mcp_elicitation_complete_notification,
}

module _ (env : Environment) (c : ContinuationEnvelope) (context : McpProjectionContext)
    (policy : McpProjectionPolicy) where
  -- The receipt of an issuance is that of its request.
  record IsIssuanceFor (issuance : McpElicitationIssuance) : Type 0 where
    request : IsRequestFor env c context policy issuance.request
    receipt : issuance.receipt ≡ create_mcp_elicitation_receipt env c issuance.request
    sealed : is_receipt issuance.receipt ≡ true

  issue-IsIssuanceFor :
      (issuance : McpElicitationIssuance)
      → issue_mcp_elicitation env c context policy ≡ ok issuance
      → IsIssuanceFor issuance
  unfolding issue_mcp_elicitation
  issue-IsIssuanceFor issuance h =
      let (r, requested, h1) = >>=-eq-ok (to_mcp_elicit_request env c context policy) _ h in
      let receipt = create_mcp_elicitation_receipt env c r in
      let (_, sealed, h2) = >>=-eq-ok (require (is_receipt receipt) _) _ h1 in
      let same : record { request = r; receipt = receipt } ≡ issuance = cc h2 in
      subst IsIssuanceFor same (record {
        request = to_mcp_elicit_request-IsRequestFor env c context policy r requested;
        receipt = refl;
        sealed = require-ok _ _ sealed;
      })

  Projects-payload_matches :
      (payload : ContinuationPayload) (r : McpElicitRequest)
      → Projects env c context policy payload r
      → payload_matches payload r r.params ≡ true
  unfolding payload_matches
  Projects-payload_matches payload r (consent message binding url able hb hp trusted) =
      text_eq_refl message
  Projects-payload_matches payload r (form message schema able hb) =
      rw (text_eq_refl message) (text_eq_refl (canonical_json (schema_or schema)))

  Projects-metadata :
      (payload : ContinuationPayload) (r : McpElicitRequest)
      → Projects env c context policy payload r
      → (r.id ≡ context.request_id)
        × (r.meta ≡ projection_metadata c context.request_id context.related_task)
  Projects-metadata payload r (consent message binding url able hb hp trusted) = (refl, refl)
  Projects-metadata payload r (form message schema able hb) = (refl, refl)

  module _ (issuance : McpElicitationIssuance) (i : IsIssuanceFor issuance)
      (d : ContinuationEnvelope) (s : SameRequest c d) (schema : d.schema_version ≡ 1) where
    same_metadata : metadata_matches d issuance.request ≡ true
    unfolding projection_metadata
    same_metadata =
        let (id, meta) = Projects-metadata i.request.payload issuance.request i.request.projects in
        let one = (==_iff d.schema_version 1).1 schema in
        rw
          (
            meta,
            id,
            s.continuation_id,
            s.correlation_id,
            s.expires_at,
            text_eq_refl c.continuation_id,
            text_eq_refl c.correlation_id,
            text_eq_refl c.expires_at,
            request_id_eq_refl context.request_id,
          )
          one

    bound_request : require_request_binding env d issuance.request ≡ ok tt
    unfolding require_request_binding parse_boundary
    bound_request =
        rw
          (
            s.payload,
            i.request.parsed,
            same_metadata,
            Projects-payload_matches i.request.payload issuance.request i.request.projects,
          )
          refl

    bound_receipt : require_issuance_receipt env d issuance.request (some issuance.receipt) ≡ ok tt
    unfolding require_issuance_receipt
    bound_receipt =
        let hash = request_hash env.sha256 issuance.request in
        let fits : receipt_matches env d issuance.request issuance.receipt ≡ true =
          rw
            (
              i.receipt,
              s.continuation_id,
              s.correlation_id,
              text_eq_refl c.continuation_id,
              text_eq_refl c.correlation_id,
              mode_eq_refl (mode_of issuance.request.params),
              request_id_eq_refl issuance.request.id,
            )
            (text_eq_refl hash) in
        rw (i.sealed, fits) refl

  unchanged_request : SameRequest c c
  unchanged_request = record {
    continuation_id = refl;
    correlation_id = refl;
    created_at = refl;
    expires_at = refl;
    payload = refl;
    metadata = refl;
  }

  -- With the receipt of its issuance, a result for an issued request is taken while the continuation
  -- is pending: the outcome depends on the result and the mode and schema of the request alone.
  pub issue_mcp_elicitation-parse :
      (issuance : McpElicitationIssuance) (raw_result : Json)
      → c.schema_version ≡ 1
      → issue_mcp_elicitation env c context policy ≡ ok issuance
      → parse_mcp_elicit_result env c issuance.request (some issuance.receipt) raw_result ≡ (
          parse_boundary invalid_protocol_message (parse_result raw_result) >>= λ result.
          outcome_of env.formats issuance.request.params result)
  unfolding parse_mcp_elicit_result require_pending
  issue_mcp_elicitation-parse issuance raw_result schema h =
      let i = issue-IsIssuanceFor issuance h in
      let open_still : require_pending c.lifecycle ≡ ok tt = rw i.request.pending refl in
      rw
        (
          open_still,
          i.request.fits,
          bound_request issuance i c unchanged_request schema,
          bound_receipt issuance i c unchanged_request schema,
        )
        refl

  Closes-require_resumed :
      {at key : Text} {payload : Json} {body : EventBody} {l : Lifecycle}
      → Closes at body l
      → body ≡ EventBody.resumed key payload
      → require_resumed l ≡ ok tt
  unfolding require_resumed
  Closes-require_resumed Closes.resumes e = refl
  Closes-require_resumed Closes.cancels e = absurd (cc e)
  Closes-require_resumed Closes.expires e = absurd (cc e)

  -- When the continuation of an issued request for consent has been resumed, by an event that its
  -- history takes next, the receipt of the issuance lets the host announce the completion.
  pub issue_mcp_elicitation_complete :
      (issuance : McpElicitationIssuance) (id target key : Text) (payload : Json)
      (event : ContinuationEvent) (d : ContinuationEnvelope)
      → issue_mcp_elicitation env c context policy ≡ ok issuance
      → issuance.request.params ≡ Params.url id target
      → Transition c event d
      → event.body ≡ EventBody.resumed key payload
      → to_mcp_elicitation_complete_notification env d issuance.request (some issuance.receipt)
        ≡ ok (record { elicitation_id = id; meta = issuance.request.meta })
  unfolding to_mcp_elicitation_complete_notification consent_id
  issue_mcp_elicitation_complete issuance id target key payload event d h asked t resumed =
      let i = issue-IsIssuanceFor issuance h in
      let consented : consent_id issuance.request.params ≡ ok id = ap consent_id asked in
      rw
        (
          Closes-require_resumed t.closes resumed,
          consented,
          i.request.fits,
          bound_request issuance i d t.request t.schema_after,
          bound_receipt issuance i d t.request t.schema_after,
        )
        refl

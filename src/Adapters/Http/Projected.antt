-- ===== src/Adapters/Http/Projected.antt =====
-- What an answer of the projection route of adapters/http/app.ts means.
use pausemesh.Prelude.{
  ℕ, ◌<◌, ◌≡◌, refl, sym, subst, Bool, true, false, Option, none, some, [], ◌∷◌, Result, ok, err,
  >>=-eq-ok, Result-cases, inl, inr, arith,
}
use pausemesh.Prelude.Text.{Text}
use pausemesh.Domain.Types.{ContinuationId, ContinuationEnvelope, ContinuationStatus, status}
use pausemesh.Domain.Events.{ContinuationEvent}
use pausemesh.Ports.Platform.{Platform}
use pausemesh.Ports.EventStore.{Streams}
use pausemesh.Service.Program.{Program}
use pausemesh.Service.Methods.{inspect}
use pausemesh.Service.Ensures.{Post, IsStable, Ensures, Ensures-bind, Ensures-attempt}
use pausemesh.Service.Promises.{Read, Read-later}
use pausemesh.Service.Calls.{Inspects, inspect-Ensures}
use pausemesh.Adapters.Protocol.{ProtocolAdapterErrorCode}
use pausemesh.Adapters.A2a.{to_a2a_interrupted_task}
use pausemesh.Adapters.A2a.Projections.{to_a2a_interrupted_task-IsBound}
use pausemesh.Adapters.Agui.Issuing.{issue_agui_interrupts}
use pausemesh.Adapters.Agui.Issued.{issue_agui_interrupts-IsIssued}
use pausemesh.Adapters.Mcp.Urls.{McpProjectionPolicy}
use pausemesh.Adapters.Mcp.Issuing.{Environment, issue_mcp_elicitation, to_mcp_elicit_request}
use pausemesh.Adapters.Mcp.Issued.{to_mcp_elicit_request-IsRequestFor}
use pausemesh.Adapters.Http.Errors.{
  Projection, Response, Thrown, error_response, error_response_status, failure, projected,
}
use pausemesh.Adapters.Http.Requests.{Request, read_bounded_json}
use pausemesh.Adapters.Http.Projections.{
  ProjectionProtocol, a2a, adapted, ag_ui, mcp, parse_a2a, parse_ag_ui, parse_mcp, post_projection,
  project, projection_response, read_protocol, bounded, respond,
}

adapted-ok {ℓ} :
    {A : Type ℓ} (r : Result ProtocolAdapterErrorCode A) {a : A} → adapted r ≡ ok a → r ≡ ok a
unfolding adapted
adapted-ok (ok b) h = ground arith
adapted-ok (err code) h = absurd (cc h)

module _ (env : Environment) (policy : McpProjectionPolicy) (limit : ℕ) where
  mcp-pending :
      (c : ContinuationEnvelope) (request : Request) (p : Projection)
      → project env policy limit mcp request c ≡ ok p
      → status c ≡ ContinuationStatus.pending
  unfolding project issue_mcp_elicitation
  mcp-pending c request p h =
      let (json, _, h1) = >>=-eq-ok (read_bounded_json limit request) _ h in
      let (context, _, h2) = >>=-eq-ok (parse_mcp json) _ h1 in
      let (issuance, e, _) =
        >>=-eq-ok (adapted (issue_mcp_elicitation env c context policy)) _ h2 in
      let (r, made, _) =
        >>=-eq-ok (to_mcp_elicit_request env c context policy) _ (adapted-ok _ e) in
      let i = to_mcp_elicit_request-IsRequestFor env c context policy r made in rw i.pending refl

  a2a-pending :
      (c : ContinuationEnvelope) (request : Request) (p : Projection)
      → project env policy limit a2a request c ≡ ok p
      → status c ≡ ContinuationStatus.pending
  unfolding project
  a2a-pending c request p h =
      let (json, _, h1) = >>=-eq-ok (read_bounded_json limit request) _ h in
      let (binding, _, h2) = >>=-eq-ok (parse_a2a json) _ h1 in
      let (task, e, _) =
        >>=-eq-ok (adapted (to_a2a_interrupted_task env.formats.is_offset_datetime c binding)) _
          h2 in
      let (bound, _, _) =
        to_a2a_interrupted_task-IsBound env.formats.is_offset_datetime c binding task
          (adapted-ok _ e) in
      bound.pending

  ag_ui-pending :
      (c : ContinuationEnvelope) (request : Request) (p : Projection)
      → project env policy limit ag_ui request c ≡ ok p
      → status c ≡ ContinuationStatus.pending
  unfolding project
  ag_ui-pending c request p h =
      let (json, _, h1) = >>=-eq-ok (read_bounded_json limit request) _ h in
      let (binding, _, h2) = >>=-eq-ok (parse_ag_ui json) _ h1 in
      let (issuance, e, _) =
        >>=-eq-ok
          (adapted
            (issue_agui_interrupts env.formats.is_offset_datetime env.sha256 (c ∷ []) binding))
          _ h2 in
      let i =
        issue_agui_interrupts-IsIssued env.formats.is_offset_datetime env.sha256 (c ∷ []) binding
          issuance (adapted-ok _ e) in
      rw i.issuable.0.pending refl

  -- Only a pending continuation is projected.
  pub project-pending :
      (protocol : ProjectionProtocol) (c : ContinuationEnvelope) (request : Request)
      (p : Projection)
      → project env policy limit protocol request c ≡ ok p
      → status c ≡ ContinuationStatus.pending
  project-pending mcp = mcp-pending
  project-pending a2a = a2a-pending
  project-pending ag_ui = ag_ui-pending

  -- A state that was read is projected by the protocol that the path names.
  pub record IsView (request : Request) (id : ContinuationId) (text : Text) (r : Response)
      (s : ContinuationEnvelope) : Type 0 where
    pub protocol : ProjectionProtocol
    pub named : read_protocol text ≡ some protocol
    pub projection : Projection
    pub made : project env policy limit protocol request s ≡ ok projection
    pub answered : r ≡ record { status = 200; body = projected projection }

  abbrev pub Projects : Request → ContinuationId → Text → Post Response
  Projects request id text (ok r) streams =
      r.status < 400 → (s : ContinuationEnvelope) × Read id s streams × IsView request id text r s
  Projects request id text (err e) streams = ⊥

  pub Projects-IsStable :
      (request : Request) (id : ContinuationId) (text : Text) → IsStable (Projects request id text)
  Projects-IsStable request id text (ok r) s t h l =
      λ low. let (o, read, made) = h low in (o, Read-later id o s t read l.0, made)
  Projects-IsStable request id text (err e) s t h l = absurd h

  refused_below {ℓ} : {A : Type ℓ} (thrown : Thrown) → (error_response thrown).status < 400 → A
  refused_below thrown low = absurd (omega (arith, error_response_status thrown, low))

  response-IsView :
      (request : Request) (id : ContinuationId) (text : Text) (s : ContinuationEnvelope)
      (o : Option ProjectionProtocol)
      → read_protocol text ≡ o
      → (projection_response env policy limit o request s).status < 400
      → IsView request id text (projection_response env policy limit o request s) s
  unfolding projection_response respond
  response-IsView request id text s none named low = absurd (omega (arith, low))
  response-IsView request id text s (some protocol) named low =
      elim (Result-cases (project env policy limit protocol request s)) [
        | inl (p, made) ↦ record {
          protocol = protocol;
          named = named;
          projection = p;
          made = made;
          answered = rw made refl;
        }
        | inr (thrown, e) ↦ refused_below thrown (rw e at low)
      ]

  -- The response, or the failure, of the reading.
  Shows : Request → ContinuationId → Text → Post Response
  Shows request id text (ok r) streams =
      (s : ContinuationEnvelope) × Read id s streams
      × (r ≡ projection_response env policy limit (read_protocol text) request s)
  Shows request id text (err e) streams = Unit

  bounded-Projects :
      (accepts : ContinuationEvent → Bool) (request : Request) (id : ContinuationId) (text : Text)
      (oversized : Bool) (handler : Program Response) (streams : Streams)
      → Ensures accepts (Projects request id text) handler streams
      → Ensures accepts (Projects request id text) (bounded oversized handler) streams
  unfolding bounded
  bounded-Projects accepts request id text true handler streams h =
      λ low. refused_below Thrown.payload_too_large low
  bounded-Projects accepts request id text false handler streams h = h

  pub post_projection-Projects :
      (accepts : ContinuationEvent → Bool) (platform : Platform) (ttl : ℕ) (request : Request)
      (id : ContinuationId) (text : Text) (streams : Streams)
      → Ensures accepts
          (Projects request id text)
          (post_projection env policy limit platform request id text)
          streams
  unfolding post_projection Shows
  post_projection-Projects accepts platform ttl request id text streams =
      bounded-Projects accepts request id text request.oversized _ streams (
        Ensures-attempt accepts (Shows request id text) (Projects request id text) _ _ streams
          (Ensures-bind accepts (Inspects id) (Shows request id text) (inspect platform id) _
            streams (inspect-Ensures platform ttl accepts id streams) (λ s t read. (s, read, refl))
            (λ e t q. tt))
          (λ r t (s, read, same) low. (
            s,
            read,
            subst (λ q. IsView request id text q s) (sym same)
                (response-IsView request id text s (read_protocol text) refl
                  (subst (λ (q : Response). q.status < 400) same low)),
          ))
          (λ e t q low. refused_below (failure e) low))

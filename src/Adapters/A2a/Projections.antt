-- ===== src/Adapters/A2a/Projections.antt =====
-- What the projections of adapters/a2a/task.ts promise.
use mathlib.Core.Bool.{and-eq-true_iff}
use pausemesh.Prelude.{
  ◌≡◌, ◌≢◌, ◌⊎◌, ◌∙◌, inl, inr, subst, [], refl, ap, Bool, true, ◌&&◌, Option, none, some, ok,
  >>=-eq-ok, arith,
}
use pausemesh.Prelude.Text.{Text, codes, text_eq_iff}
use pausemesh.Json.{Json, null, bool, num, str, arr, obj, Entries, end, entry}
use pausemesh.Json.Fields.{field, as_text-str}
use pausemesh.Domain.Types.{ContinuationEnvelope, ContinuationStatus, Lifecycle, status}
use pausemesh.Adapters.Identifiers.{is_opaque_id}
use pausemesh.Adapters.Payloads.{
  PayloadKind, input, authorization, IsKind, payload_kind-IsKind, payload_message-ok,
}
use pausemesh.Adapters.Protocol.{ProtocolAdapterErrorCode, require, require-ok}
use pausemesh.Adapters.A2a.{
  A2aServerTaskBinding, A2aSendMessageRequest, AuthorizationControlAction, ContinuationPayload,
  InterruptedTask, auth_required, input_required, reject, retry, task_state, both, action_text,
  is_projectable, parse_payload, payload_or, request_of, require_binding, require_input,
  require_authorization, require_pending, task_of, to_a2a_authorization_control_message,
  to_a2a_input_message, to_a2a_interrupted_task,
}

-- The continuation is pending and has identifiers and dates that can be sent, and the binding is
-- one of its own context.
pub record IsBound (is_offset_datetime : Text → Bool) (continuation : ContinuationEnvelope)
    (binding : A2aServerTaskBinding) : Type 0 where
  pub pending : status continuation ≡ ContinuationStatus.pending
  pub identified : is_opaque_id continuation.continuation_id ≡ true
  pub created : is_offset_datetime continuation.created_at ≡ true
  pub expires : is_offset_datetime continuation.expires_at ≡ true
  pub context : is_opaque_id binding.context_id ≡ true
  pub task : is_opaque_id binding.task_id ≡ true
  pub own : binding.context_id ≡ continuation.correlation_id

-- The payload is an object with this kind and this message.
pub record Asks (payload : Json) (kind : PayloadKind) (message : Text) : Type 0 where
  pub fields : Entries
  pub object : payload ≡ obj fields
  pub said : field (codes "message") fields ≡ some (str message)
  pub spoken : message ≢ []
  pub of_kind : IsKind kind (field (codes "kind") fields)

both-ok :
    (k : Option PayloadKind) (m : Option Text) {payload : ContinuationPayload}
    → both k m ≡ some payload
    → (k ≡ some payload.kind) × (m ≡ some payload.message)
unfolding both
both-ok (some kind) (some message) h = (ground arith, ground arith)
both-ok none m h = absurd (cc h)
both-ok (some kind) none h = absurd (cc h)

parse_payload-Asks :
    (json : Json) (payload : ContinuationPayload)
    → parse_payload json ≡ some payload
    → Asks json payload.kind payload.message
unfolding parse_payload
parse_payload-Asks (obj es) payload h =
    let (kind, message) = both-ok _ _ h in
    let (said, spoken) = payload_message-ok _ message in
    record {
      fields = es;
      object = refl;
      said = as_text-str _ said;
      spoken = spoken;
      of_kind = payload_kind-IsKind _ kind;
    }
parse_payload-Asks null payload h = absurd (cc h)
parse_payload-Asks (bool b) payload h = absurd (cc h)
parse_payload-Asks (num literal) payload h = absurd (cc h)
parse_payload-Asks (str s) payload h = absurd (cc h)
parse_payload-Asks (arr xs) payload h = absurd (cc h)

-- The request goes to the bound task and refers to the continuation.
pub record IsReply (continuation : ContinuationEnvelope) (binding : A2aServerTaskBinding)
    (message_id : Text) (request : A2aSendMessageRequest) : Type 0 where
  pub sent_to : request.task_id ≡ binding.task_id
  pub context : request.context_id ≡ binding.context_id
  pub named : request.message_id ≡ message_id
  pub sendable : is_opaque_id message_id ≡ true
  pub refers : request.continuation_id ≡ continuation.continuation_id

-- The task is the bound one, waits with its message, and refers to the continuation.
pub record IsInterrupted (continuation : ContinuationEnvelope) (binding : A2aServerTaskBinding)
    (task : InterruptedTask) : Type 0 where
  pub id : task.id ≡ binding.task_id
  pub context : task.context_id ≡ binding.context_id
  pub message_id : task.message_id ≡ continuation.continuation_id
  pub message_context : task.message_context_id ≡ binding.context_id
  pub message_task : task.message_task_id ≡ binding.task_id
  pub timestamp : task.timestamp ≡ continuation.created_at
  pub refers : task.continuation_id ≡ continuation.continuation_id
  pub expires : task.expires_at ≡ continuation.expires_at

payload_or-ok :
    (o : Option ContinuationPayload) (code : ProtocolAdapterErrorCode) {p : ContinuationPayload}
    → payload_or code o ≡ ok p
    → o ≡ some p
payload_or-ok none code h = cc
payload_or-ok (some q) code h = ground arith

require_input-ok : (kind : PayloadKind) → require_input kind ≡ ok tt → kind ≡ input
unfolding require_input
require_input-ok input h = refl
require_input-ok authorization h = cc

require_authorization-ok :
    (kind : PayloadKind) → require_authorization kind ≡ ok tt → kind ≡ authorization
unfolding require_authorization
require_authorization-ok input h = cc
require_authorization-ok authorization h = refl

one_kind : (o : Option Json) → IsKind input o → o ≡ some (str (codes "authorization")) → ⊥
unfolding IsKind
one_kind o (inl missing) h = cc (missing, h)
one_kind o (inr given) h = cc (given, h)

-- No payload asks for both.
Asks-one : {json : Json} {m n : Text} → Asks json input m → Asks json authorization n → ⊥
unfolding IsKind
Asks-one a b =
    let same : a.fields ≡ b.fields = cc (a.object, b.object) in
    one_kind (field (codes "kind") a.fields) a.of_kind (ap (field (codes "kind")) same ∙ b.of_kind)

state_of :
    {json : Json} (kind : PayloadKind) (message : Text)
    → Asks json kind message
    → Asks json authorization message × (task_state kind ≡ auth_required)
      ⊎ Asks json input message × (task_state kind ≡ input_required)
state_of input message asks = inr (asks, refl)
state_of authorization message asks = inl (asks, refl)

action_part :
    (action : AuthorizationControlAction) (part : Json)
    → part ≡ obj (entry (codes "action") (str (action_text action)) end)
    → (action ≡ reject) × (part ≡ obj (entry (codes "action") (str (codes "reject")) end))
      ⊎ (action ≡ retry) × (part ≡ obj (entry (codes "action") (str (codes "retry")) end))
action_part reject part e = inl (refl, e)
action_part retry part e = inr (refl, e)

module _ (is_offset_datetime : Text → Bool) (continuation : ContinuationEnvelope) where
  pending_of_lifecycle :
      (l : Lifecycle)
      → continuation.lifecycle ≡ l
      → require_pending is_offset_datetime continuation ≡ ok tt
      → (status continuation ≡ ContinuationStatus.pending)
        × (is_projectable is_offset_datetime continuation ≡ true)
  unfolding require_pending
  pending_of_lifecycle (Lifecycle.pending hash) e h =
      (rw e refl, require-ok (is_projectable is_offset_datetime continuation) _ (rw e at h))
  pending_of_lifecycle (Lifecycle.resumed at key payload) e h = absurd (cc (rw e at h))
  pending_of_lifecycle (Lifecycle.cancelled at reason) e h = absurd (cc (rw e at h))
  pending_of_lifecycle (Lifecycle.expired at) e h = absurd (cc (rw e at h))

  bound :
      (binding : A2aServerTaskBinding)
      → require_pending is_offset_datetime continuation ≡ ok tt
      → require_binding continuation binding ≡ ok tt
      → IsBound is_offset_datetime continuation binding
  unfolding require_binding
  bound binding p q =
      let (pending, projectable) = pending_of_lifecycle continuation.lifecycle refl p in
      let (u, ids, own) =
        >>=-eq-ok (require (is_opaque_id binding.context_id && is_opaque_id binding.task_id) _) _
          q in
      let (identified, dated) = (and-eq-true_iff _ _).0 projectable in
      let (created, expires) = (and-eq-true_iff _ _).0 dated in
      let (context, task) = (and-eq-true_iff _ _).0 (require-ok _ _ ids) in
      record {
        pending = pending;
        identified = identified;
        created = created;
        expires = expires;
        context = context;
        task = task;
        own = (text_eq_iff binding.context_id continuation.correlation_id).0 (require-ok _ _ own);
      }

  -- A task is projected from a pending continuation with an identifier and dates that can be sent,
  -- by a binding of the continuation's own context; it is the bound task, bears the message of the
  -- continuation's payload, its dates and its identifier, and requires an authorization or an input
  -- as the payload says.
  pub to_a2a_interrupted_task-IsBound :
      (binding : A2aServerTaskBinding) (task : InterruptedTask)
      → to_a2a_interrupted_task is_offset_datetime continuation binding ≡ ok task
      → IsBound is_offset_datetime continuation binding
        × IsInterrupted continuation binding task
        × (Asks continuation.payload authorization task.text × (task.state ≡ auth_required)
            ⊎ Asks continuation.payload input task.text × (task.state ≡ input_required))
  unfolding to_a2a_interrupted_task
  to_a2a_interrupted_task-IsBound binding task h =
      let (u, pending, h1) = >>=-eq-ok (require_pending is_offset_datetime continuation) _ h in
      let (payload, parsed, h2) =
        >>=-eq-ok (payload_or _ (parse_payload continuation.payload)) _ h1 in
      let (v, own, h3) = >>=-eq-ok (require_binding continuation binding) _ h2 in
      let asks = parse_payload-Asks continuation.payload payload (payload_or-ok _ _ parsed) in
      let made : task_of continuation binding payload ≡ task = ground arith in
      (
        bound binding pending own,
        subst (IsInterrupted continuation binding) made (record {
          id = refl;
          context = refl;
          message_id = refl;
          message_context = refl;
          message_task = refl;
          timestamp = refl;
          refers = refl;
          expires = refl;
        }),
        subst
            (λ (t : InterruptedTask).
              Asks continuation.payload authorization t.text × (t.state ≡ auth_required)
              ⊎ Asks continuation.payload input t.text × (t.state ≡ input_required))
            made (state_of payload.kind payload.message asks),
      )

  made-IsReply :
      (binding : A2aServerTaskBinding) (message_id : Text) (part : Json)
      (request : A2aSendMessageRequest)
      → request_of continuation binding message_id part ≡ request
      → is_opaque_id message_id ≡ true
      → IsReply continuation binding message_id request × (request.data_part ≡ part)
  made-IsReply binding message_id part request made sendable = (
    record {
      sent_to = cc (ap (λ (r : A2aSendMessageRequest). r.task_id) made);
      context = cc (ap (λ (r : A2aSendMessageRequest). r.context_id) made);
      named = cc (ap (λ (r : A2aSendMessageRequest). r.message_id) made);
      sendable = sendable;
      refers = cc (ap (λ (r : A2aSendMessageRequest). r.continuation_id) made);
    },
    cc (ap (λ (r : A2aSendMessageRequest). r.data_part) made),
  )

  -- An input message answers a pending continuation whose payload asks for input, in the task that
  -- is bound to it, under the given identifier, which can be sent, and carries the response as it
  -- is.
  pub to_a2a_input_message-IsBound :
      (binding : A2aServerTaskBinding) (response : Json) (message_id : Text)
      (request : A2aSendMessageRequest)
      → to_a2a_input_message is_offset_datetime continuation binding response message_id
        ≡ ok request
      → IsBound is_offset_datetime continuation binding
        × ((message : Text) × Asks continuation.payload input message)
        × IsReply continuation binding message_id request
        × (request.data_part ≡ response)
  unfolding to_a2a_input_message
  to_a2a_input_message-IsBound binding response message_id request h =
      let (u, pending, h1) = >>=-eq-ok (require_pending is_offset_datetime continuation) _ h in
      let (payload, parsed, h2) =
        >>=-eq-ok (payload_or _ (parse_payload continuation.payload)) _ h1 in
      let (v, kind, h3) = >>=-eq-ok (require_input payload.kind) _ h2 in
      let (w, own, h4) = >>=-eq-ok (require_binding continuation binding) _ h3 in
      let (x, id, h5) = >>=-eq-ok (require (is_opaque_id message_id) _) _ h4 in
      let asks = parse_payload-Asks continuation.payload payload (payload_or-ok _ _ parsed) in
      let made : request_of continuation binding message_id response ≡ request = ground arith in
      let (reply, carries) =
        made-IsReply binding message_id response request made (require-ok _ _ id) in
      (
        bound binding pending own,
        (
          payload.message,
          subst (λ k. Asks continuation.payload k payload.message)
              (require_input-ok payload.kind kind) asks,
        ),
        reply,
        carries,
      )

  -- A control message answers a pending continuation whose payload asks for an authorization, in the
  -- task that is bound to it, under the given identifier, which can be sent, and carries the name of
  -- the action and nothing else.
  pub to_a2a_authorization_control_message-IsBound :
      (binding : A2aServerTaskBinding) (action : AuthorizationControlAction) (message_id : Text)
      (request : A2aSendMessageRequest)
      → to_a2a_authorization_control_message is_offset_datetime continuation binding action
          message_id
        ≡ ok request
      → IsBound is_offset_datetime continuation binding
        × ((message : Text) × Asks continuation.payload authorization message)
        × IsReply continuation binding message_id request
        × ((action ≡ reject)
              × (request.data_part ≡ obj (entry (codes "action") (str (codes "reject")) end))
            ⊎ (action ≡ retry)
              × (request.data_part ≡ obj (entry (codes "action") (str (codes "retry")) end)))
  unfolding to_a2a_authorization_control_message
  to_a2a_authorization_control_message-IsBound binding action message_id request h =
      let (u, pending, h1) = >>=-eq-ok (require_pending is_offset_datetime continuation) _ h in
      let (payload, parsed, h2) =
        >>=-eq-ok (payload_or _ (parse_payload continuation.payload)) _ h1 in
      let (v, kind, h3) = >>=-eq-ok (require_authorization payload.kind) _ h2 in
      let (x, id, h4) = >>=-eq-ok (require (is_opaque_id message_id) _) _ h3 in
      let (w, own, h5) = >>=-eq-ok (require_binding continuation binding) _ h4 in
      let asks = parse_payload-Asks continuation.payload payload (payload_or-ok _ _ parsed) in
      let part = obj (entry (codes "action") (str (action_text action)) end) in
      let made : request_of continuation binding message_id part ≡ request = ground arith in
      let (reply, carries) =
        made-IsReply binding message_id part request made (require-ok _ _ id) in
      (
        bound binding pending own,
        (
          payload.message,
          subst (λ k. Asks continuation.payload k payload.message)
              (require_authorization-ok payload.kind kind) asks,
        ),
        reply,
        action_part action request.data_part carries,
      )

  -- No continuation gives both an input message and a control message, whatever the bindings, the
  -- response, the action and the message identifiers.
  pub input-excludes-control :
      (left right : A2aServerTaskBinding) (response : Json) (action : AuthorizationControlAction)
      (left_id right_id : Text) (sent controlled : A2aSendMessageRequest)
      → to_a2a_input_message is_offset_datetime continuation left response left_id ≡ ok sent
      → to_a2a_authorization_control_message is_offset_datetime continuation right action right_id
        ≢ ok controlled
  input-excludes-control left right response action left_id right_id sent controlled h g =
      let (_, (m, asks), _, _) = to_a2a_input_message-IsBound left response left_id sent h in
      let (_, (n, asks'), _, _) =
        to_a2a_authorization_control_message-IsBound right action right_id controlled g in
      Asks-one asks asks'

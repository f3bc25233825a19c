-- ===== src/Signatures/Trail.antt =====
-- The audit trail (`recordEvent`, `webhookEventFor`, `emitWebhookForRequest` and
-- `publicEventMetadata` of signatures.service.ts).
pub mod Frame
use signara.Prelude.{
  ℕ, ◌+◌, String, Bool, true, false, Option, none, some, List, [], ◌∷◌, ◌++◌, map_some,
}
use signara.Db.{
  Db, SigningRequest, SignatureEvent, Metadata, EventType, ev_created, ev_viewed, ev_signed,
  ev_declined, ev_cancelled, ev_expired, ev_reminded, find_request,
}
use signara.Env.{Env}
use signara.Webhooks.Events.{
  WebhookEvent, request_created, request_viewed, request_signed, request_completed,
  request_declined, request_cancelled, request_expired, request_reminded,
}
use signara.Webhooks.Emit.{emit}

-- What a request handler knows of its client; the `ctx` of signatures.controller.ts.
pub record ClientContext : Type 0 where
  pub ip_address : Option String
  pub user_agent : Option String

abbrev pub empty_metadata : Metadata
empty_metadata = record {
  created_by = none;
  fields_placed = none;
  ip_address = none;
  user_agent = none;
  signature_id = none;
  signature_type = none;
  fields_captured = none;
  certificate_serial = none;
  certificate_id = none;
  identity_assurance = none;
  in_person = none;
  completed = none;
  reason = none;
  cancelled_by = none;
  requested_by = none;
  automatic = none;
  handed_over_by = none;
}

-- `{ ...ctx }`
abbrev pub ctx_metadata : ClientContext → Metadata
ctx_metadata ctx = record empty_metadata {
  ip_address = ctx.ip_address;
  user_agent = ctx.user_agent;
}

-- `metadata.completed === true`
abbrev pub is_true : Option Bool → Bool
is_true none = false
is_true (some b) = b

abbrev signed_webhook : Bool → WebhookEvent
signed_webhook true = request_completed
signed_webhook false = request_signed

unfoldable pub webhook_event_for : EventType → Metadata → Option WebhookEvent
webhook_event_for ev_created m = some request_created
webhook_event_for ev_viewed m = some request_viewed
webhook_event_for ev_signed m = some (signed_webhook (is_true m.completed))
webhook_event_for ev_declined m = some request_declined
webhook_event_for ev_cancelled m = some request_cancelled
webhook_event_for ev_expired m = some request_expired
webhook_event_for ev_reminded m = some request_reminded
webhook_event_for _ m = none

module _ (env : Env) where
  emit_found :
      WebhookEvent
      → ℕ
      → Option ℕ
      → Option (List ℕ)
      → Option Metadata
      → Option SigningRequest
      → Db
      → Db
  emit_found event request_id signer_id signer_ids metadata none db = db
  emit_found event request_id signer_id signer_ids metadata (some r) db =
      emit env event
        (record {
          organization_id = r.organization_id;
          request_id = some request_id;
          signer_id = signer_id;
          signer_ids = signer_ids;
          metadata = metadata;
        })
        db

  -- Failures of `emit` are logged and dropped by the source; `emit` has none here.
  unfoldable pub emit_webhook_for_request :
      WebhookEvent → ℕ → Option ℕ → Option (List ℕ) → Option Metadata → Db → Db
  unfolding emit_found
  emit_webhook_for_request event request_id signer_id signer_ids metadata db =
      emit_found event request_id signer_id signer_ids metadata (find_request request_id db) db

  abbrev pub event_row : ℕ → ℕ → EventType → Option ℕ → Metadata → SignatureEvent
  event_row id request_id type signer_id m = record {
    id = id;
    request_id = request_id;
    signer_id = signer_id;
    type = type;
    metadata = some m;
    ip_address = m.ip_address;
    user_agent = map_some env.first_500 m.user_agent;
    created_at = env.now;
  }

  emit_if : Option WebhookEvent → ℕ → Option ℕ → Metadata → Db → Db
  unfolding emit_webhook_for_request
  emit_if none request_id signer_id m db = db
  emit_if (some event) request_id signer_id m db =
      emit_webhook_for_request event request_id signer_id none (some m) db

  unfoldable pub record_event : ℕ → EventType → Option ℕ → Metadata → Db → Db
  unfolding emit_if webhook_event_for
  record_event request_id type signer_id m db =
      emit_if (webhook_event_for type m) request_id signer_id m (record db {
        events = db.events ++ event_row (env.uuid db.ids_drawn) request_id type signer_id m ∷ [];
        ids_drawn = db.ids_drawn + 1;
      })

-- What a guest sees of an event's metadata: for a signature, whether it completed the request.
unfoldable pub public_event_metadata : EventType → Option Metadata → Option Bool
public_event_metadata ev_signed m = map_some (λ x. is_true x.completed) m
public_event_metadata _ m = none

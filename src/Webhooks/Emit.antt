-- ===== src/Webhooks/Emit.antt =====
-- Fanning an event out to the subscribed endpoints (`emit` and `enqueue` of webhooks.service.ts).
pub mod Frame
pub mod Fanout
use signara.Prelude.{
  ℕ, ◌+◌, String, Bool, ◌&&◌, ◌||◌, Option, none, List, [], ◌∷◌, ◌++◌, ◌==◌, str_eq, select,
  contains,
}
use signara.Exec.{for_each}
use signara.Db.{
  Db, WebhookEndpoint, WebhookDelivery, WebhookPayload, Metadata, delivery_pending, deliver,
}
use signara.Env.{Env}
use signara.Webhooks.Events.{WebhookEvent, event_name}

-- `EmitInput`, its `payload` being what the callers put there.
pub record EmitInput : Type 0 where
  pub organization_id : ℕ
  pub request_id : Option ℕ
  pub signer_id : Option ℕ
  pub signer_ids : Option (List ℕ)
  pub metadata : Option Metadata

-- The `where` of `emit`: an active endpoint of the tenant, subscribed to the event or to `*`.
abbrev pub is_subscribed : ℕ → String → WebhookEndpoint → Bool
is_subscribed organization_id event e =
    e.organization_id == organization_id
    && e.active
    && (contains str_eq event e.events || contains str_eq "*" e.events)

abbrev pub subscribed : ℕ → String → Db → List WebhookEndpoint
subscribed organization_id event db = select (is_subscribed organization_id event) db.endpoints

module _ (env : Env) where
  abbrev pub delivery_for : String → WebhookPayload → WebhookEndpoint → ℕ → WebhookDelivery
  delivery_for event payload e n = record {
    id = env.uuid n;
    endpoint_id = e.id;
    organization_id = e.organization_id;
    event = event;
    payload = payload;
    status = delivery_pending;
    attempts = 0;
    response_status = none;
    error = none;
    created_at = env.now;
    last_attempt_at = none;
    delivered_at = none;
  }

  unfoldable pub enqueue : String → WebhookPayload → WebhookEndpoint → Db → Db
  enqueue event payload e db =
      let d = delivery_for event payload e db.ids_drawn in
      record db {
        deliveries = db.deliveries ++ d ∷ [];
        ids_drawn = db.ids_drawn + 1;
        jobs = db.jobs ++ deliver d.id ∷ [];
      }

  abbrev pub emit_payload : WebhookEvent → EmitInput → WebhookPayload
  emit_payload event input = record {
    event = event_name event;
    organization_id = input.organization_id;
    request_id = input.request_id;
    created_at = env.now;
    signer_id = input.signer_id;
    signer_ids = input.signer_ids;
    metadata = input.metadata;
  }

  unfoldable pub emit : WebhookEvent → EmitInput → Db → Db
  unfolding enqueue
  emit event input db =
      for_each (enqueue (event_name event) (emit_payload event input))
        (subscribed input.organization_id (event_name event) db) db

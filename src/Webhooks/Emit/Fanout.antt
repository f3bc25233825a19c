-- ===== src/Webhooks/Emit/Fanout.antt =====
-- To whom `emit` of webhooks.service.ts sends an event: a delivery and a job for each endpoint.
use signara.Prelude.{
  ◌≡◌, refl, sym, ap, ◌∙◌, String, List, [], ◌∷◌, ◌++◌, map, append-nil, append_assoc, ℕ, ◌⊎◌, inl,
  inr, subst, true, Bool-cases, Memᴰ, All, select, contains, str_eq, eq_iff, ==_iff, any-mem,
  any-of_mem, arith,
}
use signara.Exec.{for_each}
use signara.Db.{Db, WebhookEndpoint, WebhookDelivery, deliver, delivery_pending}
use signara.Env.{Env}
use signara.Webhooks.Events.{WebhookEvent, event_name}
use signara.Webhooks.Emit.{
  EmitInput, enqueue, emit, emit_payload, delivery_for, subscribed, is_subscribed,
}

-- An active endpoint of the tenant that is subscribed to the event or to everything.
pub record IsReceiver (organization_id : ℕ) (event : String) (e : WebhookEndpoint) : Type 0 where
  pub tenant : e.organization_id ≡ organization_id
  pub active : e.active ≡ true
  pub asks : Memᴰ event e.events ⊎ Memᴰ "*" e.events

-- `es` are the receivers among the endpoints of a table, in its order.
pub data Receivers (organization_id : ℕ) (event : String)
    : List WebhookEndpoint → List WebhookEndpoint → Type 0 where
  nobody : Receivers organization_id event [] []
  receives :
      {e : WebhookEndpoint} {table es : List WebhookEndpoint}
      → IsReceiver organization_id event e
      → Receivers organization_id event table es
      → Receivers organization_id event (e ∷ table) (e ∷ es)
  passes :
      {e : WebhookEndpoint} {table es : List WebhookEndpoint}
      → ¬ (IsReceiver organization_id event e)
      → Receivers organization_id event table es
      → Receivers organization_id event (e ∷ table) es

-- A waiting delivery of the event that was emitted.
pub record IsDeliveryOf (event : WebhookEvent) (input : EmitInput) (d : WebhookDelivery)
    : Type 0 where
  pub event_named : d.event ≡ event_name event
  pub waiting : d.status ≡ delivery_pending
  pub unattempted : d.attempts ≡ 0
  pub payload_event : d.payload.event ≡ event_name event
  pub organization : d.payload.organization_id ≡ input.organization_id
  pub request : d.payload.request_id ≡ input.request_id
  pub metadata : d.payload.metadata ≡ input.metadata

-- `after` has the deliveries `new` behind those of `before`, with a job for each in their order;
-- they are for the endpoints `es`, one each, in their order.
pub record IsFanout (before : Db) (es : List WebhookEndpoint) (new : List WebhookDelivery)
    (after : Db) : Type 0 where
  pub deliveries : after.deliveries ≡ before.deliveries ++ new
  pub jobs : after.jobs ≡ before.jobs ++ map (λ d. deliver d.id) new
  pub endpoints : map (λ d. d.endpoint_id) new ≡ map (λ e. e.id) es

contains-mem : (x : String) (xs : List String) → contains str_eq x xs ≡ true → Memᴰ x xs
contains-mem x xs h =
    let (y, m, same) = any-mem (str_eq x) xs h in
    subst (λ z. Memᴰ z xs) (sym ((eq_iff x y).0 same)) m

mem-contains : (x : String) (xs : List String) → Memᴰ x xs → contains str_eq x xs ≡ true
mem-contains x xs m = any-of_mem (str_eq x) xs m ((eq_iff x x).1 refl)

subscribed-IsReceiver :
    (id : ℕ) (event : String) (e : WebhookEndpoint)
    → is_subscribed id event e ≡ true
    → IsReceiver id event e
subscribed-IsReceiver id event e h = record {
  tenant = (==_iff e.organization_id id).0 (ground arith);
  active = ground arith;
  asks = elim (Bool-cases (contains str_eq event e.events)) [
    | inl named ↦ inl (contains-mem event e.events named)
    | inr other ↦ inr (contains-mem "*" e.events (ground arith))
  ];
}

receiver_subscribed :
    (id : ℕ) (event : String) (e : WebhookEndpoint)
    → IsReceiver id event e
    → is_subscribed id event e ≡ true
receiver_subscribed id event e h =
    let tenant = (==_iff e.organization_id id).1 h.tenant in
    let active = h.active in
    elim h.asks [
      | inl m ↦ let named = mem-contains event e.events m in ground arith
      | inr m ↦ let all = mem-contains "*" e.events m in ground arith
    ]

subscribed-Receivers :
    (id : ℕ) (event : String) (table : List WebhookEndpoint)
    → Receivers id event table (select (is_subscribed id event) table)
subscribed-Receivers id event [] = nobody
subscribed-Receivers id event (e ∷ table) = elim (Bool-cases (is_subscribed id event e)) [
  | inl h ↦
      rw h (receives (subscribed-IsReceiver id event e h) (subscribed-Receivers id event table))
  | inr h ↦
      rw h (
        passes (λ r. cc (h, receiver_subscribed id event e r))
          (subscribed-Receivers id event table))
]

module _ (env : Env) (event : WebhookEvent) (input : EmitInput) where
  enqueue_each-IsFanout :
      (es : List WebhookEndpoint) (db : Db)
      → (new : List WebhookDelivery) × IsFanout db es new
          (for_each (enqueue env (event_name event) (emit_payload env event input)) es db)
        × All (IsDeliveryOf event input) new
  unfolding enqueue
  enqueue_each-IsFanout [] db = (
    [],
    record { deliveries = sym (append-nil _); jobs = sym (append-nil _); endpoints = refl },
    tt,
  )
  enqueue_each-IsFanout (e ∷ es) db =
      let payload = emit_payload env event input in
      let (new, h, all) = enqueue_each-IsFanout es (enqueue env (event_name event) payload e db) in
      let d = delivery_for env (event_name event) payload e db.ids_drawn in
      (
        d ∷ new,
        record {
          deliveries = h.deliveries ∙ append_assoc db.deliveries (d ∷ []) new;
          jobs = h.jobs ∙ append_assoc db.jobs (deliver d.id ∷ []) (map (λ y. deliver y.id) new);
          endpoints = ap (λ l. e.id ∷ l) h.endpoints;
        },
        (
          record {
            event_named = refl;
            waiting = refl;
            unattempted = refl;
            payload_event = refl;
            organization = refl;
            request = refl;
            metadata = refl;
          },
          all,
        ),
      )

  -- An event queues one delivery of it, with its job, for each active endpoint of the tenant that is
  -- subscribed to it or to everything, in the order of the table, and no other; the delivery is
  -- waiting and its payload carries the event, the tenant, the request and the metadata.
  pub emit-IsFanout :
      (db : Db)
      → (es : List WebhookEndpoint) × (new : List WebhookDelivery) × Receivers input.organization_id
          (event_name event)
          db.endpoints
          es
        × IsFanout db es new (emit env event input db)
        × All (IsDeliveryOf event input) new
  unfolding emit
  emit-IsFanout db =
      let es = subscribed input.organization_id (event_name event) db in
      let (new, h, all) = enqueue_each-IsFanout es db in
      (es, new, subscribed-Receivers input.organization_id (event_name event) db.endpoints, h, all)

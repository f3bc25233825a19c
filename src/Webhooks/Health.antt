-- ===== src/Webhooks/Health.antt =====
-- The health of an endpoint and the sweep that disables dead ones (`describeHealth`,
-- `sweepUnhealthyEndpoints`, `notifyDisabled` of webhooks.service.ts).
pub mod Window
pub mod Sweep
use signara.Prelude.{
  ℕ, ◌+◌, ◌*◌, ◌-◌, ◌/◌, Bool, true, false, not, ◌&&◌, ◌||◌, ◌==◌, ltb, leb, str_eq, Option, none,
  some, List, [], ◌∷◌, ◌++◌, if◌then◌else◌, get_or, select, length, contains,
}
use signara.Db.{
  Db, WebhookEndpoint, WebhookDelivery, DeliveryStatus, delivered, failed, Membership,
  MembershipRole, owner, admin, update_endpoint,
}
use signara.Env.{Env}

pub data HealthStatus : Type 0 where
  healthy failing disabled : HealthStatus

-- The reason's sentence is left out: its numbers are in the other fields.
pub record EndpointHealth : Type 0 where
  pub status : HealthStatus
  pub failures_since_success : ℕ
  pub last_success_at : Option ℕ
  pub last_failure_at : Option ℕ

abbrev pub is_delivered : DeliveryStatus → Bool
is_delivered delivered = true
is_delivered _ = false

abbrev pub is_failed : DeliveryStatus → Bool
is_failed failed = true
is_failed _ = false

-- The greater of two instants, a missing one counting as the least.
abbrev pub later : Option ℕ → Option ℕ → Option ℕ
later none b = b
later (some a) none = some a
later (some a) (some b) = if ltb a b then some b else some a

-- `findFirst({ where, orderBy: { deliveredAt: 'desc' } })` and the column it selects
unfoldable pub last_success_at : ℕ → List WebhookDelivery → Option ℕ
last_success_at id [] = none
last_success_at id (d ∷ ds) =
    let rest = last_success_at id ds in
    if d.endpoint_id == id && is_delivered d.status then later d.delivered_at rest else rest

unfoldable pub last_failure_at : ℕ → List WebhookDelivery → Option ℕ
last_failure_at id [] = none
last_failure_at id (d ∷ ds) =
    let rest = last_failure_at id ds in
    if d.endpoint_id == id && is_failed d.status then later d.last_attempt_at rest else rest

-- `lastAttemptAt > since`, or `createdAt > since` where there was no attempt
abbrev pub is_after : ℕ → WebhookDelivery → Bool
is_after since d = ltb since (get_or d.last_attempt_at d.created_at)

unfoldable pub failures_since : ℕ → ℕ → List WebhookDelivery → ℕ
failures_since id since ds =
    length (select (λ d. d.endpoint_id == id && is_failed d.status && is_after since d) ds)

-- The last success, or the registration where there was none.
abbrev pub healthy_since : WebhookEndpoint → Db → ℕ
healthy_since e db = get_or (last_success_at e.id db.deliveries) e.created_at

abbrev is_later : Option ℕ → Option ℕ → Bool
is_later none success = true
is_later (some s) none = false
is_later (some s) (some f) = ltb s f

-- `lastSuccessAt === null || (lastFailureAt !== null && lastFailureAt > lastSuccessAt)`
unfoldable pub describe_health : WebhookEndpoint → Db → EndpointHealth
unfolding last_success_at last_failure_at failures_since
describe_health e db =
    let success = last_success_at e.id db.deliveries in
    let failure = last_failure_at e.id db.deliveries in
    let failures = failures_since e.id (healthy_since e db) db.deliveries in
    record {
      status =
          if not e.active
          then disabled
          else if ltb 0 failures && is_later success failure
          then failing
          else healthy;
      failures_since_success = failures;
      last_success_at = success;
      last_failure_at = failure;
    }

-- `Math.max(1, Math.round(ms / 86_400_000))`
unfoldable pub rounded_days : ℕ → ℕ
rounded_days ms = let days = (ms + 43_200_000) / 86_400_000 in if leb 1 days then days else 1

abbrev manages : MembershipRole → Bool
manages owner = true
manages admin = true
manages _ = false

abbrev pub is_recipient : ℕ → Membership → Bool
is_recipient organization_id m =
    m.organization_id == organization_id
    && m.user_active
    && not m.user_deleted
    && (manages m.role || contains str_eq "webhooks.manage" m.permissions)

module _ (env : Env) where
  unfoldable pub notify : WebhookEndpoint → ℕ → ℕ → ℕ → List Membership → Db → Db
  notify e failures since now [] db = db
  notify e failures since now (m ∷ ms) db = notify e failures since now ms (record db {
    notifications =
        db.notifications
        ++ record {
          id = env.uuid db.ids_drawn;
          user_id = m.user_id;
          organization_id = e.organization_id;
          type = "webhook.endpoint_disabled";
          endpoint_id = e.id;
          failures = failures;
          days = rounded_days (now - since);
        }
          ∷ [];
    ids_drawn = db.ids_drawn + 1;
  })

  unfoldable pub notify_disabled : WebhookEndpoint → ℕ → ℕ → ℕ → Db → Db
  unfolding notify rounded_days
  notify_disabled e failures since now db =
      notify e failures since now (select (is_recipient e.organization_id) db.memberships) db

  abbrev pub window_ms : ℕ
  window_ms = get_or env.auto_disable_after_days 14 * 86_400_000

  abbrev pub min_failures : ℕ
  min_failures = get_or env.auto_disable_min_failures 5

  -- Neither `continue` of the loop is taken.
  unfoldable pub is_dead : ℕ → WebhookEndpoint → Db → Bool
  unfolding last_success_at failures_since
  is_dead now e db =
      not (ltb now (healthy_since e db + window_ms))
      && leb min_failures (failures_since e.id (healthy_since e db) db.deliveries)

  abbrev pub disable : ℕ → WebhookEndpoint → WebhookEndpoint
  disable now x = record x { active = false; disabled_at = some now }

  unfoldable pub sweep_endpoint : ℕ → WebhookEndpoint → Db → Db
  unfolding is_dead notify_disabled update_endpoint
  sweep_endpoint now e db =
      if is_dead now e db
      then notify_disabled e (failures_since e.id (healthy_since e db) db.deliveries)
          (healthy_since e db) now (update_endpoint e.id (disable now) db)
      else db

  unfoldable pub sweep_endpoints : ℕ → List WebhookEndpoint → Db → Db
  unfolding sweep_endpoint
  sweep_endpoints now [] db = db
  sweep_endpoints now (e ∷ es) db = sweep_endpoints now es (sweep_endpoint now e db)

  unfoldable pub sweep_unhealthy_endpoints : ℕ → Db → Db
  unfolding sweep_endpoints
  sweep_unhealthy_endpoints now db = sweep_endpoints now (select (λ e. e.active) db.endpoints) db

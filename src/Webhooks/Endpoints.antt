-- ===== src/Webhooks/Endpoints.antt =====
-- Registering and switching webhook endpoints (`assertDeliverableUrl`, `create`, `list`,
-- `remove`, `ping`, `setActive`, `listDeliveries` of webhooks.service.ts).
pub mod Urls
use signara.Prelude.{
  ℕ, zero, suc, ◌+◌, String, Bool, true, false, not, ◌&&◌, ◌==◌, Option, none, some, List, [], ◌∷◌,
  ◌++◌, if◌then◌else◌, get_or, find, select, reverse, map,
}
use signara.Exec.{
  Exec, Outcome, ok, throw, bad_request, not_found, pure, gets, modify, require, ◌>>=◌, ◌>>◌,
}
use signara.Db.{Db, WebhookEndpoint, WebhookDelivery, WebhookPayload, update_endpoint}
use signara.Env.{Env, Url, Protocol, https, http}
use signara.User.{AuthenticatedUser}
use signara.Signatures.Control.{tenant_of}
use signara.Webhooks.Events.{event_name, ping, resolve_events}
use signara.Webhooks.Emit.{enqueue}
use signara.Webhooks.Hosts.{is_private_host}
use signara.Webhooks.Health.{EndpointHealth, describe_health}

abbrev pub is_https : Protocol → Bool
is_https https = true
is_https _ = false

abbrev pub is_http : Protocol → Bool
is_http http = true
is_http _ = false

-- `endpointId ? { endpointId } : {}`
abbrev is_wanted : Option ℕ → ℕ → Bool
is_wanted none id = true
is_wanted (some wanted) id = wanted == id

abbrev take : ℕ → List WebhookDelivery → List WebhookDelivery
take zero xs = []
take (suc n) [] = []
take (suc n) (x ∷ xs) = x ∷ take n xs

module _ (env : Env) where
  check_url : Url → Outcome Url
  check_url url =
      if not (is_https url.protocol) && not (is_http url.protocol)
      then throw (bad_request "url must be an absolute http(s) URL")
      else if is_private_host env.lower url.hostname
      then if get_or env.allow_private false
        then ok url
        else throw (bad_request "url resolves to a private or loopback host")
      else if not (is_https url.protocol)
      then throw (bad_request "url must use https for non-private hosts")
      else ok url

  unfoldable pub assert_deliverable_url : String → Outcome Url
  unfolding check_url
  assert_deliverable_url raw = elim (env.parse_url raw) [
    | none ↦ throw (bad_request "url must be an absolute http(s) URL")
    | some url ↦ check_url url
  ]

  abbrev pub new_endpoint : ℕ → ℕ → Url → List String → Option String → String → WebhookEndpoint
  new_endpoint id organization_id url events description secret = record {
    id = id;
    organization_id = organization_id;
    url = url.href;
    events = events;
    secret = secret;
    description = description;
    active = true;
    disabled_at = none;
    created_at = env.now;
  }

  insert_endpoint : WebhookEndpoint → Db → Db
  insert_endpoint e db = record db {
    endpoints = db.endpoints ++ e ∷ [];
    ids_drawn = db.ids_drawn + 1;
    tokens_drawn = db.tokens_drawn + 1;
  }

  -- The secret is returned with the endpoint, here only.
  unfoldable pub create :
      AuthenticatedUser → String → Option (List String) → Option String → Exec Db WebhookEndpoint
  unfolding insert_endpoint
  create user url events description = do
    org ← tenant_of user
    target ← λ db. (assert_deliverable_url url, db)
    resolved ← λ db. (resolve_events events, db)
    e ← gets (λ db.
        new_endpoint (env.uuid db.ids_drawn) org.id target resolved description
          (env.random_secret db.tokens_drawn))
    modify (insert_endpoint e)
    pure e

  abbrev pub find_own_endpoint : ℕ → ℕ → Db → Option WebhookEndpoint
  find_own_endpoint organization_id id db =
      find (λ e. e.id == id && e.organization_id == organization_id) db.endpoints

  -- Deliveries go with their endpoint.
  unfoldable pub delete_endpoint : ℕ → Db → Db
  delete_endpoint id db = record db {
    endpoints = select (λ e. not (e.id == id)) db.endpoints;
    deliveries = select (λ d. not (d.endpoint_id == id)) db.deliveries;
  }

  unfoldable pub remove : AuthenticatedUser → ℕ → Exec Db Bool
  unfolding delete_endpoint
  remove user id = do
    org ← tenant_of user
    e ← λ db. require (find_own_endpoint org.id id db) (not_found "Webhook endpoint not found") db
    modify (delete_endpoint id)
    pure true

  -- The latest 50 deliveries of the tenant, newest first.
  unfoldable pub list_deliveries : AuthenticatedUser → Option ℕ → Exec Db (List WebhookDelivery)
  list_deliveries user endpoint_id = do
    org ← tenant_of user
    gets (λ db. take 50 (
        reverse (
          select (λ d. d.organization_id == org.id && is_wanted endpoint_id d.endpoint_id)
            db.deliveries)))

  abbrev ping_payload : ℕ → WebhookPayload
  ping_payload organization_id = record {
    event = event_name ping;
    organization_id = organization_id;
    request_id = none;
    created_at = env.now;
    signer_id = none;
    signer_ids = none;
    metadata = none;
  }

  -- The id of the delivery that was queued.
  unfoldable pub send_ping : AuthenticatedUser → ℕ → Exec Db ℕ
  unfolding enqueue
  send_ping user id = do
    org ← tenant_of user
    e ← λ db. require (find_own_endpoint org.id id db) (not_found "Webhook endpoint not found") db
    delivery_id ← gets (λ db. env.uuid db.ids_drawn)
    modify (enqueue env (event_name ping) (ping_payload org.id) e)
    pure delivery_id

  abbrev pub switched : Bool → WebhookEndpoint → WebhookEndpoint
  switched active x = record x {
    active = active;
    disabled_at = if active then none else some env.now;
  }

  -- The endpoint as it is now, with its health.
  unfoldable pub set_active :
      AuthenticatedUser → ℕ → Bool → Exec Db (WebhookEndpoint × EndpointHealth)
  unfolding update_endpoint
  set_active user id active = do
    org ← tenant_of user
    e ← λ db. require (find_own_endpoint org.id id db) (not_found "Webhook endpoint not found") db
    modify (update_endpoint id (switched active))
    gets (λ db. (switched active e, describe_health (switched active e) db))

  -- The tenant's endpoints with their health, newest first.
  unfoldable pub list_endpoints :
      AuthenticatedUser → Exec Db (List (WebhookEndpoint × EndpointHealth))
  list_endpoints user = do
    org ← tenant_of user
    gets (λ db.
        map {A = WebhookEndpoint} (λ e. (e, describe_health e db))
          (reverse (select (λ e. e.organization_id == org.id) db.endpoints)))

-- ===== src/Webhooks/Deliver.antt =====
-- One delivery attempt (`deliver` of webhooks.service.ts).
pub mod Attempts
use signara.Prelude.{ℕ, ◌+◌, String, Bool, not, ◌&&◌, ◌==◌, leb, none, some, find, if◌then◌else◌}
use signara.Exec.{ok, throw, internal, Exec}
use signara.Db.{Db, WebhookEndpoint, WebhookDelivery, delivered, failed, update_delivery}
use signara.Env.{Env}

-- What `fetch` gives: a response with its status, or an error with its message (a refused
-- connection, a redirect, the timeout's abort).
pub data FetchResult : Type 0 where
  responded : ℕ → FetchResult
  transport_error : String → FetchResult

-- The request of an attempt: the endpoint, its secret, which the body is signed with, and the body.
abbrev pub Fetch : Type 0
Fetch = WebhookEndpoint → WebhookDelivery → FetchResult

-- `response.ok`
abbrev pub is_ok_status : ℕ → Bool
is_ok_status status = leb 200 status && leb status 299

module _ (env : Env) (http_error : ℕ → String) (fetch : Fetch) where
  record_disabled : WebhookDelivery → Db → Db
  unfolding update_delivery
  record_disabled d = update_delivery d.id (λ x. record x {
    status = failed;
    attempts = d.attempts + 1;
    error = some "endpoint disabled";
    last_attempt_at = some env.now;
  })

  record_delivered : WebhookDelivery → ℕ → Db → Db
  unfolding update_delivery
  record_delivered d status = update_delivery d.id (λ x. record x {
    status = delivered;
    attempts = d.attempts + 1;
    response_status = some status;
    error = none;
    last_attempt_at = some env.now;
    delivered_at = some env.now;
  })

  record_refused : WebhookDelivery → ℕ → Db → Db
  unfolding update_delivery
  record_refused d status = update_delivery d.id (λ x. record x {
    status = failed;
    attempts = d.attempts + 1;
    response_status = some status;
    error = some (http_error status);
    last_attempt_at = some env.now;
  })

  record_unreachable : WebhookDelivery → String → Db → Db
  unfolding update_delivery
  record_unreachable d message = update_delivery d.id (λ x. record x {
    status = failed;
    attempts = d.attempts + 1;
    error = some message;
    last_attempt_at = some env.now;
  })

  -- The source does not record an error whose message starts with its own text for a refused call; no
  -- error of the transport is taken to do so.
  attempt : WebhookDelivery → FetchResult → Exec Db (Unit {0})
  unfolding record_delivered record_refused record_unreachable
  attempt d (responded status) db =
      if is_ok_status status
      then (ok tt, record_delivered d status db)
      else (throw (internal (http_error status)), record_refused d status db)
  attempt d (transport_error message) db =
      (throw (internal message), record_unreachable d message db)

  -- A throw makes the queue retry the job.
  unfoldable pub deliver : ℕ → Exec Db (Unit {0})
  unfolding record_disabled attempt
  deliver id db = elim (find (λ d. d.id == id) db.deliveries) [
    | none ↦ (ok tt, db)
    | some d ↦ elim (find (λ e. e.id == d.endpoint_id) db.endpoints) [
      | none ↦ (ok tt, db)
      | some e ↦ if not e.active then (ok tt, record_disabled d db) else attempt d (fetch e d) db
    ]
  ]

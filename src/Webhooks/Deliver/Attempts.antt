-- ===== src/Webhooks/Deliver/Attempts.antt =====
-- What one delivery attempt of webhooks.service.ts records.
use signara.Prelude.{
  ℕ, ◌+◌, ◌≡◌, ◌≤◌, ◌↔◌, refl, ap, String, true, false, none, some, ◌==◌, Option, find, arith,
  find-update_where, Bool-cases, inl, inr,
}
use signara.Db.{Db, WebhookEndpoint, WebhookDelivery, delivered, failed, update_delivery}
use signara.Env.{Env}
use signara.Webhooks.Deliver.{
  FetchResult, responded, transport_error, Fetch, is_ok_status, deliver, attempt, record_disabled,
  record_delivered, record_refused, record_unreachable,
}

abbrev pub find_delivery : ℕ → Db → Option WebhookDelivery
find_delivery id db = find (λ (d : WebhookDelivery). d.id == id) db.deliveries

abbrev pub IsSuccess : FetchResult → Type 0
IsSuccess (responded status) = (200 ≤ status) × (status ≤ 299)
IsSuccess (transport_error message) = ⊥

-- The row of `d` after an attempt: one more attempt is counted, and it is delivered exactly in case
-- of a success.
pub record IsAttempted (d : WebhookDelivery) (success : Type 0) (after : Db) : Type 0 where
  pub row : WebhookDelivery
  pub found : find_delivery d.id after ≡ some row
  pub counted : row.attempts ≡ d.attempts + 1
  pub outcome : (row.status ≡ delivered) ↔ success
  pub same_event : row.event ≡ d.event

updated_row :
    (d : WebhookDelivery) (f : WebhookDelivery → WebhookDelivery) (db : Db)
    → ((x : WebhookDelivery) → (f x).id ≡ x.id)
    → find_delivery d.id db ≡ some d
    → find_delivery d.id (update_delivery d.id f db) ≡ some (f d)
unfolding update_delivery
updated_row d f db keep found =
    rw
      (
        find-update_where (λ x. x.id == d.id) (λ x. x.id == d.id) f db.deliveries
            (λ x. ap (λ n. n == d.id) (keep x)),
        found,
      )
      (ground arith)

module _ (env : Env) (http_error : ℕ → String) (fetch : Fetch) where
  attempt-IsAttempted :
      (d : WebhookDelivery) (r : FetchResult) (db : Db)
      → find_delivery d.id db ≡ some d
      → IsAttempted d (IsSuccess r) (attempt env http_error fetch d r db).1
  unfolding attempt record_delivered record_refused record_unreachable
  attempt-IsAttempted d (transport_error message) db found = record {
    row = record d {
      status = failed;
      attempts = d.attempts + 1;
      error = some message;
      last_attempt_at = some env.now;
    };
    found = updated_row d _ db (λ x. refl) found;
    counted = refl;
    outcome = (λ h. cc, λ h. absurd h);
    same_event = refl;
  }
  attempt-IsAttempted d (responded status) db found = elim (Bool-cases (is_ok_status status)) [
    | inl good ↦ rw good (record {
      row = record d {
        status = delivered;
        attempts = d.attempts + 1;
        response_status = some status;
        error = none;
        last_attempt_at = some env.now;
        delivered_at = some env.now;
      };
      found = updated_row d _ db (λ x. refl) found;
      counted = refl;
      outcome = (λ h. (ground arith, ground arith), λ h. refl);
      same_event = refl;
    })
    | inr bad ↦ rw bad (record {
      row = record d {
        status = failed;
        attempts = d.attempts + 1;
        response_status = some status;
        error = some (http_error status);
        last_attempt_at = some env.now;
      };
      found = updated_row d _ db (λ x. refl) found;
      counted = refl;
      outcome = (λ h. cc, λ h. absurd (ground arith));
      same_event = refl;
    })
  ]

  deliver-live :
      (d : WebhookDelivery) (e : WebhookEndpoint) (db : Db)
      → find_delivery d.id db ≡ some d
      → find (λ (y : WebhookEndpoint). y.id == d.endpoint_id) db.endpoints ≡ some e
      → e.active ≡ true
      → deliver env http_error fetch d.id db ≡ attempt env http_error fetch d (fetch e d) db
  unfolding deliver
  deliver-live d e db found on live = ground arith

  deliver-disabled :
      (d : WebhookDelivery) (e : WebhookEndpoint) (db : Db)
      → find_delivery d.id db ≡ some d
      → find (λ (y : WebhookEndpoint). y.id == d.endpoint_id) db.endpoints ≡ some e
      → e.active ≡ false
      → (deliver env http_error fetch d.id db).1 ≡ record_disabled env http_error fetch d db
  unfolding deliver
  deliver-disabled d e db found on dead = ground arith

  -- An attempt at a stored delivery, whose endpoint exists, counts one more attempt, and marks the
  -- delivery as delivered exactly if the endpoint is active and answered with a status from 200 to
  -- 299.
  pub deliver_attempt :
      (d : WebhookDelivery) (e : WebhookEndpoint) (db : Db)
      → find_delivery d.id db ≡ some d
      → find (λ (y : WebhookEndpoint). y.id == d.endpoint_id) db.endpoints ≡ some e
      → IsAttempted d
          ((e.active ≡ true) × IsSuccess (fetch e d))
          (deliver env http_error fetch d.id db).1
  unfolding record_disabled
  deliver_attempt d e db found on = elim (Bool-cases e.active) [
    | inl live ↦
        let h = attempt-IsAttempted d (fetch e d) db found in
        rw (deliver-live d e db found on live) (record {
          row = h.row;
          found = h.found;
          counted = h.counted;
          outcome = (λ q. (live, h.outcome.0 q), λ q. h.outcome.1 q.1);
          same_event = h.same_event;
        })
    | inr dead ↦ rw (deliver-disabled d e db found on dead) (record {
      row = record d {
        status = failed;
        attempts = d.attempts + 1;
        error = some "endpoint disabled";
        last_attempt_at = some env.now;
      };
      found = updated_row d _ db (λ x. refl) found;
      counted = refl;
      outcome = (λ q. cc, λ q. cc);
      same_event = refl;
    })
  ]

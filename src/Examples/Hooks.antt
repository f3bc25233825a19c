-- ===== src/Examples/Hooks.antt =====
-- Webhook endpoints, deliveries and the assurance score: concrete runs and the theorems there.
use signara.Prelude.{
  ℕ, ◌≤◌, ◌≡◌, ◌↔◌, String, refl, true, false, none, some, List, [], ◌∷◌, ◌++◌, Memᴰ, All, arith,
}
use signara.Exec.{ok}
use signara.Db.{
  Db, WebhookEndpoint, WebhookDelivery, WebhookPayload, delivery_pending, failed, update_endpoint,
}
use signara.Env.{Url, https}
use signara.Certificates.Assurance.{AssuranceFactors, ev, high, compute_identity_assurance}
use signara.Certificates.Assurance.Bounds.{assurance_high}
use signara.Webhooks.Events.{request_signed, resolve_events}
use signara.Webhooks.Emit.{EmitInput, emit}
use signara.Webhooks.Emit.Fanout.{IsFanout, Receivers, IsDeliveryOf, emit-IsFanout}
use signara.Webhooks.Hosts.{is_private_host, is_private_name}
use signara.Webhooks.Hosts.Gaps.{mapped_prefix, mapped_public}
use signara.Webhooks.Endpoints.{assert_deliverable_url}
use signara.Webhooks.Endpoints.Urls.{IsDeliverable, accepted_url}
use signara.Webhooks.Deliver.{responded, Fetch, deliver}
use signara.Webhooks.Deliver.Attempts.{IsSuccess, IsAttempted, deliver_attempt}
use signara.Webhooks.Health.{sweep_unhealthy_endpoints}
use signara.Webhooks.Health.Sweep.{sweep_disables}
use signara.Examples.{env, db, endpoint}

abbrev signed_input : EmitInput
signed_input = record {
  organization_id = 7;
  request_id = some 2;
  signer_id = some 4;
  signer_ids = none;
  metadata = none;
}

emit-IsFanout_example :
    (es : List WebhookEndpoint) × (new : List WebhookDelivery) × Receivers 7 "request.signed"
      db.endpoints es
    × IsFanout db es new (emit env request_signed signed_input db)
    × All (IsDeliveryOf request_signed signed_input) new
emit-IsFanout_example = emit-IsFanout env request_signed signed_input db

abbrev hook_url : Url
hook_url = record {
  protocol = https;
  hostname = b'a' ∷ b'.' ∷ b'b' ∷ [];
  href = "https://a.b/hook";
}

hook_url_accepted : assert_deliverable_url env "https://a.b/hook" ≡ ok hook_url
unfolding assert_deliverable_url is_private_host
hook_url_accepted = refl

accepted_url_example :
    (env.parse_url "https://a.b/hook" ≡ some hook_url) × IsDeliverable env hook_url
accepted_url_example = accepted_url env "https://a.b/hook" hook_url hook_url_accepted

-- `::ffff:7f00:1`, which is 127.0.0.1
mapped_public_example :
    is_private_name (mapped_prefix ++ b'7' ∷ b'f' ∷ b'0' ∷ b'0' ∷ b':' ∷ b'1' ∷ []) ≡ false
mapped_public_example = mapped_public (b'7' ∷ b'f' ∷ b'0' ∷ b'0' ∷ b':' ∷ b'1' ∷ [])

abbrev payload : WebhookPayload
payload = record {
  event = "ping";
  organization_id = 7;
  request_id = none;
  created_at = 0;
  signer_id = none;
  signer_ids = none;
  metadata = none;
}

abbrev queued : WebhookDelivery
queued = record {
  id = 11;
  endpoint_id = 6;
  organization_id = 7;
  event = "ping";
  payload = payload;
  status = delivery_pending;
  attempts = 0;
  response_status = none;
  error = none;
  created_at = 0;
  last_attempt_at = none;
  delivered_at = none;
}

abbrev http_error : ℕ → String
http_error status = "HTTP error"

abbrev answers_204 : Fetch
answers_204 e d = responded 204

abbrev queued_db : Db
queued_db = record db { deliveries = queued ∷ [] }

deliver_attempt_example :
    IsAttempted queued
      ((endpoint.active ≡ true) × IsSuccess (responded 204))
      (deliver env http_error answers_204 11 queued_db).1
deliver_attempt_example =
    deliver_attempt env http_error answers_204 queued endpoint queued_db refl refl

abbrev broken : WebhookDelivery
broken = record queued { status = failed; attempts = 1; last_attempt_at = some 10 }

abbrev broken_db : Db
broken_db = record db { deliveries = broken ∷ broken ∷ broken ∷ broken ∷ broken ∷ [] }

abbrev two_weeks : ℕ
two_weeks = 1_209_600_000

abbrev swept : WebhookEndpoint
swept = record endpoint { active = false; disabled_at = some two_weeks }

endpoint_swept : Memᴰ swept (sweep_unhealthy_endpoints env two_weeks broken_db).endpoints
unfolding sweep_unhealthy_endpoints update_endpoint
endpoint_swept = Memᴰ.head refl

sweep_disables_example : swept.active ≡ false
sweep_disables_example =
    sweep_disables env two_weeks 0 endpoint swept broken_db (Memᴰ.head refl) refl (omega arith) refl
      (omega arith) (omega arith) endpoint_swept refl

endpoint_spared : Memᴰ endpoint (sweep_unhealthy_endpoints env 1000 broken_db).endpoints
unfolding sweep_unhealthy_endpoints
endpoint_spared = Memᴰ.head refl

abbrev full : AssuranceFactors
full = record {
  certificate_valid = true;
  cert_identity_match = true;
  account_verified = true;
  mfa_enabled = true;
  revocation_checked = true;
  provider_validation = some ev;
}

assurance_high_example :
    ((compute_identity_assurance full).score ≤ 100)
    × (((compute_identity_assurance full).level ≡ high)
        ↔ (80 ≤ (compute_identity_assurance full).score))
    × ((compute_identity_assurance full).level ≡ high → true ≡ true)
assurance_high_example = assurance_high full

abbrev asked : List String
asked = "ping" ∷ "request.sent" ∷ "ping" ∷ []

asked_resolves : resolve_events (some asked) ≡ ok ("ping" ∷ "request.sent" ∷ [])
unfolding resolve_events
asked_resolves = refl

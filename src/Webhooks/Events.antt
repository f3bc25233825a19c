-- ===== src/Webhooks/Events.antt =====
-- The event names of webhooks.service.ts (`WEBHOOK_EVENTS`) and `resolveEvents`.
pub mod Known
use signara.Prelude.{
  String, List, [], ◌∷◌, not, Option, none, some, str_eq, if◌then◌else◌, any, contains, to_set,
}
use signara.Exec.{Outcome, ok, throw, bad_request}

pub data WebhookEvent : Type 0 where
  request_created request_sent request_viewed request_signed request_completed : WebhookEvent
  request_declined request_cancelled request_expired request_reminded ping : WebhookEvent

abbrev pub event_name : WebhookEvent → String
event_name request_created = "request.created"
event_name request_sent = "request.sent"
event_name request_viewed = "request.viewed"
event_name request_signed = "request.signed"
event_name request_completed = "request.completed"
event_name request_declined = "request.declined"
event_name request_cancelled = "request.cancelled"
event_name request_expired = "request.expired"
event_name request_reminded = "request.reminded"
event_name ping = "ping"

abbrev pub webhook_events : List String
webhook_events =
    "request.created" ∷ "request.sent" ∷ "request.viewed" ∷ "request.signed" ∷ "request.completed"
    ∷ "request.declined" ∷ "request.cancelled" ∷ "request.expired" ∷ "request.reminded" ∷ "ping"
    ∷ []

resolve_given : List String → Outcome (List String)
resolve_given [] = ok ("*" ∷ [])
resolve_given (e ∷ es) =
    if any (λ x. not (contains str_eq x webhook_events)) (e ∷ es)
    then throw (bad_request "unknown event(s)")
    else ok (to_set str_eq (e ∷ es))

unfoldable pub resolve_events : Option (List String) → Outcome (List String)
unfolding resolve_given
resolve_events none = ok ("*" ∷ [])
resolve_events (some events) = resolve_given events

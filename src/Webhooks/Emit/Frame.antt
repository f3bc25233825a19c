-- ===== src/Webhooks/Emit/Frame.antt =====
-- What fanning out an event does to the tables.
use signara.Prelude.{◌≡◌, refl, String, List, [], ◌∷◌}
use signara.Exec.{for_each}
use signara.Db.{Db, WebhookEndpoint, WebhookPayload}
use signara.Env.{Env}
use signara.Webhooks.Events.{WebhookEvent, event_name}
use signara.Webhooks.Emit.{EmitInput, enqueue, emit, emit_payload, subscribed}

-- `after` differs from `before` in the outgoing work only.
abbrev pub IsQuiet : Db → Db → Type 0
IsQuiet before after = after ≡ record before {
  deliveries = after.deliveries;
  jobs = after.jobs;
  ids_drawn = after.ids_drawn;
}

module _ (env : Env) where
  enqueue_all-IsQuiet :
      (event : String) (payload : WebhookPayload) (es : List WebhookEndpoint) (db : Db)
      → IsQuiet db (for_each (enqueue env event payload) es db)
  unfolding enqueue
  enqueue_all-IsQuiet event payload [] db = refl
  enqueue_all-IsQuiet event payload (e ∷ es) db =
      enqueue_all-IsQuiet event payload es (enqueue env event payload e db)

  pub emit-IsQuiet :
      (event : WebhookEvent) (input : EmitInput) (db : Db) → IsQuiet db (emit env event input db)
  unfolding emit
  emit-IsQuiet event input db =
      enqueue_all-IsQuiet (event_name event) (emit_payload env event input)
        (subscribed input.organization_id (event_name event) db) db

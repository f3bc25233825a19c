-- ===== src/Signatures/Reminders.antt =====
-- Reminders (`remind`, `sweepDueReminders`, `eligibleReminderTargets` and `dispatchReminders` of
-- signatures.service.ts).
pub mod Targets
use signara.Prelude.{
  ℕ, ◌+◌, ◌*◌, Bool, true, false, not, ◌&&◌, ◌==◌, ltb, leb, Option, none, some, List, [], ◌∷◌,
  if◌then◌else◌, get_or, is_id, select, any, length, str_eq,
}
use signara.Exec.{
  Exec, conflict, not_found, pure, gets, modify, throw_if, require, for_each, ◌>>=◌, ◌>>◌,
}
use signara.Db.{
  Db, Signer, SignatureEvent, SigningRequest, SigningMode, Metadata, ev_reminded, is_active,
  is_waiting, is_reminded_event, send_signing_reminder, update_signer, add_job,
}
use signara.Env.{Env}
use signara.User.{AuthenticatedUser}
use signara.Signatures.Turn.{can_signer_act}
use signara.Signatures.Trail.{empty_metadata, record_event}
use signara.Signatures.Control.{find_own_request, tenant_of}

-- `maxReminders` of `none` is `Number.POSITIVE_INFINITY`.
pub record ReminderOptions : Type 0 where
  pub min_interval_ms : ℕ
  pub max_reminders : Option ℕ
  pub signer_id : Option ℕ

abbrev pub day_ms : ℕ
day_ms = 86_400_000

-- `!options.signerId || signer.id === options.signerId`
abbrev pub is_chosen : Option ℕ → ℕ → Bool
is_chosen none id = true
is_chosen (some wanted) id = wanted == id

abbrev pub over_cap : Option ℕ → ℕ → Bool
over_cap none count = false
over_cap (some most) count = leb most count

module _ (env : Env) where
  -- `createdAt: { gt: new Date(Date.now() - minIntervalMs) }`, written without a subtraction
  abbrev pub is_recent : ℕ → SignatureEvent → Bool
  is_recent min_interval_ms e = ltb env.now (e.created_at + min_interval_ms)

  unfoldable pub recently_reminded : ℕ → ℕ → ℕ → Db → Bool
  recently_reminded request_id min_interval_ms signer_id db =
      any
        (λ e.
          e.request_id == request_id
          && is_reminded_event e.type
          && is_recent min_interval_ms e
          && is_id signer_id e.signer_id)
        db.events

  unfoldable pub is_target : ℕ → SigningMode → ReminderOptions → Db → Signer → Bool
  unfolding recently_reminded
  is_target request_id mode o db s =
      s.request_id == request_id
      && is_chosen o.signer_id s.id
      && is_waiting s.status
      && not (recently_reminded request_id o.min_interval_ms s.id db)
      && not (over_cap o.max_reminders s.reminder_count)
      && can_signer_act mode s db

  unfoldable pub eligible_reminder_targets : SigningRequest → ReminderOptions → Db → List Signer
  unfolding is_target
  eligible_reminder_targets r o db = select (is_target r.id r.mode o db) db.signers

  unfoldable pub dispatch_reminder : ℕ → Metadata → Signer → Db → Db
  unfolding add_job update_signer
  dispatch_reminder request_id m s db =
      let db1 = add_job (send_signing_reminder request_id s.id (s.reminder_count + 1)) db in
      let db2 = update_signer s.id (λ x. record x { reminder_count = x.reminder_count + 1 }) db1 in
      record_event env request_id ev_reminded (some s.id) m db2

  unfoldable pub dispatch_reminders : ℕ → List Signer → Metadata → Db → Db
  unfolding dispatch_reminder
  dispatch_reminders request_id targets m = for_each (dispatch_reminder request_id m) targets

  unfoldable pub remind : AuthenticatedUser → ℕ → Option ℕ → Exec Db ℕ
  remind user id signer_id = do
    org ← tenant_of user
    r ← λ db. require (find_own_request org.id id db) (not_found "Signing request not found") db
    throw_if (not (is_active r.status)) (conflict "This request is no longer awaiting signatures")
    targets ← gets (
        eligible_reminder_targets r
          (record { min_interval_ms = day_ms; max_reminders = none; signer_id = signer_id }))
    modify
        (dispatch_reminders id targets (record empty_metadata { requested_by = some user.email }))
    pure (length targets)

  -- The `where` of the sweep: active, not past its deadline, and somebody is waiting.
  abbrev pub not_overdue : Option ℕ → Bool
  not_overdue none = true
  not_overdue (some deadline) = ltb env.now deadline

  abbrev pub is_due : Db → SigningRequest → Bool
  is_due db r =
      is_active r.status
      && not_overdue r.deadline
      && any (λ s. s.request_id == r.id && is_waiting s.status) db.signers

  abbrev pub sweep_options : ReminderOptions
  sweep_options = record {
    min_interval_ms = get_or env.reminders_after_days 3 * day_ms;
    max_reminders = some (get_or env.reminders_max 3);
    signer_id = none;
  }

  -- The loop over the due requests, with the count of reminders queued.
  unfoldable pub sweep_requests : List SigningRequest → ℕ → Db → ℕ × Db
  unfolding dispatch_reminders
  sweep_requests [] enqueued db = (enqueued, db)
  sweep_requests (r ∷ rs) enqueued db =
      let targets = eligible_reminder_targets r sweep_options db in
      sweep_requests rs (enqueued + length targets)
        (dispatch_reminders r.id targets (record empty_metadata { automatic = some true }) db)

  abbrev pub has_smtp : Bool
  has_smtp = not (str_eq (get_or env.smtp_host "") "")

  -- The counts `requests` and `enqueued`, and the new state.
  unfoldable pub sweep_due_reminders : Db → ℕ × ℕ × Db
  unfolding sweep_requests
  sweep_due_reminders db =
      if has_smtp
      then (let due = select (is_due db) db.requests in
          let (enqueued, db') = sweep_requests due 0 db in (length due, enqueued, db'))
      else (0, 0, db)

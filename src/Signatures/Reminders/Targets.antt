-- ===== src/Signatures/Reminders/Targets.antt =====
-- Whom a reminder of signatures.service.ts goes to, and how often.
use signara.Prelude.{
  ℕ, ◌+◌, ◌<◌, ◌≡◌, sym, subst, ◌≢◌, true, false, ltb, some, Memᴰ, arith, ==_refl, mem-select,
  any-append, select-none, find-holds, ==_iff, ◌==◌, ◌&&◌, lt→ltb, none, [], Bool-cases,
  Option-cases, inl, inr,
}
use signara.Db.{
  Db, Signer, SigningRequest, SigningMode, Metadata, sequential, signed, cc_recipient, is_waiting,
  is_active, ev_reminded, update_signer, add_job,
}
use signara.Env.{Env}
use signara.User.{AuthenticatedUser}
use signara.Signatures.Control.{find_own_request}
use signara.Signatures.Trail.Frame.{events-record_event}
use signara.Signatures.Turn.{can_signer_act, earlier_signed}
use signara.Signatures.Sign.Order.{earlier_signed-mem}
use signara.Signatures.Reminders.{
  ReminderOptions, over_cap, recently_reminded, is_target, eligible_reminder_targets,
  dispatch_reminder, dispatch_reminders, remind, day_ms,
}

module _ (env : Env) where
  -- Whom the eligible signers of a request are among.
  pub record IsEligible (r : SigningRequest) (o : ReminderOptions) (db : Db) (s : Signer)
      : Type 0 where
    pub stored : Memᴰ s db.signers
    pub of_request : s.request_id ≡ r.id
    pub waiting : is_waiting s.status ≡ true
    pub rested : recently_reminded env r.id o.min_interval_ms s.id db ≡ false
    pub under_cap : over_cap o.max_reminders s.reminder_count ≡ false
    pub in_turn : can_signer_act r.mode s db ≡ true

  target-IsEligible :
      (r : SigningRequest) (o : ReminderOptions) (db : Db) (s : Signer)
      → Memᴰ s (eligible_reminder_targets env r o db)
      → IsEligible r o db s
  unfolding eligible_reminder_targets is_target
  target-IsEligible r o db s m =
      let (h, stored) = mem-select (is_target env r.id r.mode o db) db.signers m in
      record {
        stored = stored;
        of_request = ground arith;
        waiting = ground arith;
        rested = ground arith;
        under_cap = ground arith;
        in_turn = ground arith;
      }

  sequential_target :
      (r : SigningRequest) (s : Signer) (db : Db)
      → can_signer_act r.mode s db ≡ true
      → r.mode ≡ sequential
      → earlier_signed s db ≡ true
  unfolding can_signer_act
  sequential_target r s db h e = ground arith

  -- Only a signer who is waiting is reminded, and in sequential mode only once every signer who
  -- comes earlier in the order, carbon copies aside, has signed.
  pub reminded_in_turn :
      (r : SigningRequest) (o : ReminderOptions) (db : Db) (s c : Signer)
      → Memᴰ s (eligible_reminder_targets env r o db)
      → r.mode ≡ sequential
      → Memᴰ c db.signers
      → c.request_id ≡ s.request_id
      → c.order_index < s.order_index
      → c.role ≢ cc_recipient
      → (is_waiting s.status ≡ true) × (c.status ≡ signed)
  reminded_in_turn r o db s c m mode mc same before real =
      let h = target-IsEligible r o db s m in
      (
        h.waiting,
        earlier_signed-mem s c db (sequential_target r s db h.in_turn mode) mc same before real,
      )

  own_id :
      (organization_id id : ℕ) (db : Db) (r : SigningRequest)
      → find_own_request organization_id id db ≡ some r
      → r.id ≡ id
  own_id organization_id id db r found =
      let h =
        find-holds (λ (q : SigningRequest). q.id == id && q.organization_id == organization_id)
          db.requests found in
      (==_iff r.id id).0 (ground arith)

  recent_after :
      (env' : Env) (request_id interval : ℕ) (s : Signer) (m : Metadata) (db : Db)
      → env'.now < env.now + interval
      → recently_reminded env' request_id interval s.id (dispatch_reminder env request_id m s db)
        ≡ true
  unfolding recently_reminded dispatch_reminder add_job update_signer
  recent_after env' request_id interval s m db early =
      rw (events-record_event env request_id ev_reminded (some s.id) m _, any-append)
        (let own = ==_refl request_id in
          let self = ==_refl s.id in
          let recent : ltb env'.now (env.now + interval) ≡ true =
            lt→ltb env'.now (env.now + interval) early in
          ground arith)

  -- Until the interval of a check has passed since a reminder, its signer is no target of the check.
  pub is_target-dispatch_reminder :
      (env' : Env) (request_id : ℕ) (mode : SigningMode) (o : ReminderOptions) (s t : Signer)
      (m : Metadata) (db : Db)
      → env'.now < env.now + o.min_interval_ms
      → t.id ≡ s.id
      → is_target env' request_id mode o (dispatch_reminder env request_id m s db) t ≡ false
  unfolding is_target
  is_target-dispatch_reminder env' request_id mode o s t m db early same =
      let h = recent_after env' request_id o.min_interval_ms s m db early in
      let h' =
        subst
          (λ n.
            recently_reminded env' request_id o.min_interval_ms n
              (dispatch_reminder env request_id m s db)
            ≡ true)
          (sym same) h in
      ground arith

  abbrev asked : ℕ → ReminderOptions
  asked id = record { min_interval_ms = day_ms; max_reminders = none; signer_id = some id }

  not_chosen :
      (env' : Env) (request_id : ℕ) (mode : SigningMode) (id : ℕ) (t : Signer) (db : Db)
      → (id == t.id) ≡ false
      → is_target env' request_id mode (asked id) db t ≡ false
  unfolding is_target
  not_chosen env' request_id mode id t db other = ground arith

  nobody_asked :
      (env' : Env) (r : SigningRequest) (s : Signer) (m : Metadata) (db : Db)
      → env'.now < env.now + 86_400_000
      → eligible_reminder_targets env' r (asked s.id) (dispatch_reminder env r.id m s db) ≡ []
  unfolding eligible_reminder_targets
  nobody_asked env' r s m db early =
      let after = dispatch_reminder env r.id m s db in
      select-none (is_target env' r.id r.mode (asked s.id) after) after.signers (λ t.
        elim (Bool-cases (s.id == t.id)) [
          | inl same ↦
              is_target-dispatch_reminder env' r.id r.mode (asked s.id) s t m db early
                (sym ((==_iff s.id t.id).0 same))
          | inr other ↦ not_chosen env' r.id r.mode s.id t after other
        ])

  -- For 24 hours after a reminder, whoever asks to remind the same signer of the same request again,
  -- nothing changes: no mail is queued and no event is recorded.
  pub reminder_throttles :
      (env' : Env) (user : AuthenticatedUser) (request_id : ℕ) (s : Signer) (m : Metadata) (db : Db)
      → env'.now < env.now + 86_400_000
      → (remind env' user request_id (some s.id) (dispatch_reminder env request_id m s db)).1
        ≡ dispatch_reminder env request_id m s db
  unfolding remind dispatch_reminders
  reminder_throttles env' user request_id s m db early =
      let after = dispatch_reminder env request_id m s db in
      elim (Option-cases user.org) [
        | inl nobody ↦ ground arith
        | inr (org, member) ↦ elim (Option-cases (find_own_request org.id request_id after)) [
          | inl missing ↦ ground arith
          | inr (r, found) ↦
              let same = own_id org.id request_id after r found in
              let none_left : eligible_reminder_targets env' r (asked s.id) after ≡ [] =
                subst
                  (λ n.
                    eligible_reminder_targets env' r (asked s.id) (dispatch_reminder env n m s db)
                    ≡ [])
                  same (nobody_asked env' r s m db early) in
              elim (Bool-cases (is_active r.status)) [
                | inr over ↦ ground arith
                | inl live ↦ ground (arith, none_left)
              ]
        ]
      ]

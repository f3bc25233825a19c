-- ===== src/Webhooks/Health/Sweep.antt =====
-- Which endpoints the sweep of webhooks.service.ts may disable.
use signara.Prelude.{
  ℕ, ◌≡◌, refl, sym, ◌∙◌, subst, inl, inr, Bool, true, false, List, [], ◌∷◌, ◌==◌, Memᴰ, arith,
  Bool-cases, mem-update_where, update_where, select, not, ◌||◌, every, every-mem,
  every-update_where, mem-select_back, if◌then◌else◌, ◌≤◌, ◌+◌, ◌*◌, get_or, length,
}
use signara.Db.{Db, WebhookEndpoint, Membership, update_endpoint}
use signara.Env.{Env}
use signara.Webhooks.Health.Window.{is_done_by, is_failure_after, long_failing-is_dead}
use signara.Webhooks.Health.{
  is_dead, disable, notify, notify_disabled, sweep_endpoint, sweep_endpoints,
  sweep_unhealthy_endpoints, is_recipient, healthy_since, failures_since,
}

module _ (env : Env) where
  notify-Same :
      (e : WebhookEndpoint) (failures since now : ℕ) (ms : List Membership) (db : Db)
      → ((notify env e failures since now ms db).endpoints ≡ db.endpoints)
        × ((notify env e failures since now ms db).deliveries ≡ db.deliveries)
  unfolding notify
  notify-Same e failures since now [] db = (refl, refl)
  notify-Same e failures since now (m ∷ ms) db = (
    (notify-Same e failures since now ms (notify env e failures since now (m ∷ []) db)).0,
    (notify-Same e failures since now ms (notify env e failures since now (m ∷ []) db)).1,
  )

  notify_disabled-Same :
      (e : WebhookEndpoint) (failures since now : ℕ) (db : Db)
      → ((notify_disabled env e failures since now db).endpoints ≡ db.endpoints)
        × ((notify_disabled env e failures since now db).deliveries ≡ db.deliveries)
  unfolding notify_disabled
  notify_disabled-Same e failures since now db =
      notify-Same e failures since now (select (is_recipient e.organization_id) db.memberships) db

  -- What the sweep does to the tables at one endpoint.
  endpoints-sweep_endpoint :
      (now : ℕ) (e : WebhookEndpoint) (db : Db)
      → (sweep_endpoint env now e db).endpoints ≡ (
          if is_dead env now e db
          then update_where (λ x. x.id == e.id) (disable env now) db.endpoints
          else db.endpoints)
  unfolding sweep_endpoint update_endpoint
  endpoints-sweep_endpoint now e db = elim (Bool-cases (is_dead env now e db)) [
    | inl dead ↦ rw dead (
        (notify_disabled-Same e (failures_since e.id (healthy_since e db) db.deliveries)
          (healthy_since e db) now (update_endpoint e.id (disable env now) db)).0)
    | inr live ↦ rw live
  ]

  deliveries-sweep_endpoint :
      (now : ℕ) (e : WebhookEndpoint) (db : Db)
      → (sweep_endpoint env now e db).deliveries ≡ db.deliveries
  unfolding sweep_endpoint update_endpoint
  deliveries-sweep_endpoint now e db = elim (Bool-cases (is_dead env now e db)) [
    | inl dead ↦ rw dead (
        (notify_disabled-Same e (failures_since e.id (healthy_since e db) db.deliveries)
          (healthy_since e db) now (update_endpoint e.id (disable env now) db)).1)
    | inr live ↦ rw live
  ]

  is_dead-after :
      (now : ℕ) (e y : WebhookEndpoint) (db : Db)
      → is_dead env now y (sweep_endpoint env now e db) ≡ is_dead env now y db
  unfolding is_dead
  is_dead-after now e y db = rw (deliveries-sweep_endpoint now e db)

  step_active :
      (now : ℕ) (e x : WebhookEndpoint) (db : Db)
      → Memᴰ x (sweep_endpoint env now e db).endpoints
      → x.active ≡ true
      → Memᴰ x db.endpoints
  step_active now e x db m live = elim (Bool-cases (is_dead env now e db)) [
    | inr spared ↦ rw (endpoints-sweep_endpoint now e db, spared) at m
    | inl dead ↦
        let m' : Memᴰ x (update_where (λ y. y.id == e.id) (disable env now) db.endpoints) =
          (rw (endpoints-sweep_endpoint now e db, dead) at m) in
        let (y, old, how) = mem-update_where _ (disable env now) db.endpoints m' in
        elim how [
          | inl hit ↦ cc (hit.1, live)
          | inr missed ↦ subst (λ z. Memᴰ z db.endpoints) (sym (missed.1)) old
        ]
  ]

  loop_active :
      (now : ℕ) (es : List WebhookEndpoint) (x : WebhookEndpoint) (db : Db)
      → Memᴰ x (sweep_endpoints env now es db).endpoints
      → x.active ≡ true
      → Memᴰ x db.endpoints
  unfolding sweep_endpoints
  loop_active now [] x db m live = m
  loop_active now (e ∷ es) x db m live =
      step_active now e x db (loop_active now es x (sweep_endpoint env now e db) m live) live

  -- An endpoint that is active after the sweep was there before it, just as it is.
  pub sweep_spares :
      (now : ℕ) (x : WebhookEndpoint) (db : Db)
      → Memᴰ x (sweep_unhealthy_endpoints env now db).endpoints
      → x.active ≡ true
      → Memᴰ x db.endpoints
  unfolding sweep_unhealthy_endpoints
  sweep_spares now x db = loop_active now (select (λ e. e.active) db.endpoints) x db

  -- No row with the id is active.
  abbrev is_off : ℕ → WebhookEndpoint → Bool
  is_off id x = not (x.id == id) || not x.active

  off_hit :
      (now id : ℕ) (xs : List WebhookEndpoint)
      → every (is_off id) (update_where (λ x. x.id == id) (disable env now) xs) ≡ true
  off_hit now id [] = refl
  off_hit now id (x ∷ xs) = ground (arith, off_hit now id xs)

  off_step :
      (now id : ℕ) (e : WebhookEndpoint) (db : Db)
      → every (is_off id) db.endpoints ≡ true
      → every (is_off id) (sweep_endpoint env now e db).endpoints ≡ true
  off_step now id e db h =
      rw (endpoints-sweep_endpoint now e db) (elim (Bool-cases (is_dead env now e db)) [
        | inr spared ↦ rw spared h
        | inl dead ↦ rw dead (
            every-update_where (is_off id) (λ x. x.id == e.id) (disable env now) db.endpoints
              (λ x q. ground arith) h)
      ])

  off_loop :
      (now id : ℕ) (es : List WebhookEndpoint) (db : Db)
      → every (is_off id) db.endpoints ≡ true
      → every (is_off id) (sweep_endpoints env now es db).endpoints ≡ true
  unfolding sweep_endpoints
  off_loop now id [] db h = h
  off_loop now id (e ∷ es) db h =
      off_loop now id es (sweep_endpoint env now e db) (off_step now id e db h)

  loop_off :
      (now : ℕ) (es : List WebhookEndpoint) (e : WebhookEndpoint) (db : Db)
      → Memᴰ e es
      → is_dead env now e db ≡ true
      → every (is_off e.id) (sweep_endpoints env now es db).endpoints ≡ true
  unfolding sweep_endpoints
  loop_off now [] e db m dead = elim m [ ]
  loop_off now (y ∷ es) e db (Memᴰ.head q) dead =
      off_loop now e.id es (sweep_endpoint env now y db)
        (rw (endpoints-sweep_endpoint now y db, sym q, dead) (off_hit now e.id db.endpoints))
  loop_off now (y ∷ es) e db (Memᴰ.tail m) dead =
      loop_off now es e (sweep_endpoint env now y db) m (is_dead-after now y e db ∙ dead)

  -- An active endpoint is not active after the sweep if, for some instant at least the window (14
  -- days unless set otherwise) before it, the endpoint was registered and had all its successes by
  -- then, and has at least the required number of failures (5 unless set otherwise) after it.
  pub sweep_disables :
      (now since : ℕ) (e x : WebhookEndpoint) (db : Db)
      → Memᴰ e db.endpoints
      → e.active ≡ true
      → e.created_at ≤ since
      → every (is_done_by e.id since) db.deliveries ≡ true
      → since + get_or env.auto_disable_after_days 14 * 86_400_000 ≤ now
      → get_or env.auto_disable_min_failures 5
        ≤ length (select (is_failure_after e.id since) db.deliveries)
      → Memᴰ x (sweep_unhealthy_endpoints env now db).endpoints
      → x.id ≡ e.id
      → x.active ≡ false
  unfolding sweep_unhealthy_endpoints
  sweep_disables now since e x db m live old done long many mx same =
      let dead = long_failing-is_dead env now since e db done old long many in
      let off =
        every-mem (is_off e.id) (sweep_unhealthy_endpoints env now db).endpoints
          (loop_off now (select (λ y. y.active) db.endpoints) e db
            (mem-select_back (λ y. y.active) db.endpoints live m) dead)
          mx in
      ground arith

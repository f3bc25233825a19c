-- ===== src/Webhooks/Health/Window.antt =====
-- When an endpoint of webhooks.service.ts has failed for the whole window of the sweep.
use signara.Prelude.{
  ℕ, ◌≤◌, ◌≡◌, Bool, true, not, ◌&&◌, ◌||◌, ◌==◌, ◌+◌, ◌*◌, ltb, leb, Option, Option-cases, none,
  some, get_or, List, [], ◌∷◌, every, select, length, Bool-cases, inl, inr, arith,
}
use signara.Db.{Db, WebhookDelivery, WebhookEndpoint}
use signara.Env.{Env}
use signara.Webhooks.Health.{
  is_dead, healthy_since, failures_since, is_delivered, is_failed, later, last_success_at,
}

-- If the delivery is for the endpoint and succeeded, it did so by `since`.
abbrev pub is_done_by : ℕ → ℕ → WebhookDelivery → Bool
is_done_by id since d =
    not (d.endpoint_id == id && is_delivered d.status)
    || elim d.delivered_at [ none ↦ true | some t ↦ leb t since ]

-- A failure of the endpoint after `since`: by its last attempt, or its creation if it has none.
abbrev pub is_failure_after : ℕ → ℕ → WebhookDelivery → Bool
is_failure_after id since d =
    d.endpoint_id == id
    && is_failed d.status
    && elim d.last_attempt_at [ none ↦ ltb since d.created_at | some t ↦ ltb since t ]

AtMost : ℕ → Option ℕ → Type 0
AtMost since d = (t : ℕ) → d ≡ some t → t ≤ since

later-AtMost :
    (since : ℕ) (a b : Option ℕ) → AtMost since a → AtMost since b → AtMost since (later a b)
unfolding AtMost
later-AtMost since none b h k t e = k t e
later-AtMost since (some x) none h k t e = h t e
later-AtMost since (some x) (some y) h k t e = elim (Bool-cases (ltb x y)) [
  | inl below ↦ k t (rw below at e)
  | inr above ↦ h t (rw above at e)
]

done-AtMost :
    (since : ℕ) (d : Option ℕ)
    → elim d [ none ↦ true | some t ↦ leb t since ] ≡ true
    → AtMost since d
unfolding AtMost
done-AtMost since none h t e = absurd (cc)
done-AtMost since (some x) h t e = ground arith

last_success_at-AtMost :
    (id since : ℕ) (ds : List WebhookDelivery)
    → every (is_done_by id since) ds ≡ true
    → AtMost since (last_success_at id ds)
unfolding last_success_at AtMost
last_success_at-AtMost id since [] h t e = absurd (cc)
last_success_at-AtMost id since (d ∷ ds) h t e =
    let rest = last_success_at-AtMost id since ds (ground arith) in
    elim (Bool-cases (d.endpoint_id == id && is_delivered d.status)) [
      | inl hit ↦
          later-AtMost since d.delivered_at (last_success_at id ds)
            (done-AtMost since d.delivered_at (ground arith)) rest t (rw hit at e)
      | inr miss ↦ rest t (rw miss at e)
    ]

healthy_since-bound :
    (since : ℕ) (e : WebhookEndpoint) (db : Db)
    → every (is_done_by e.id since) db.deliveries ≡ true
    → e.created_at ≤ since
    → healthy_since e db ≤ since
unfolding AtMost
healthy_since-bound since e db done old = elim (Option-cases (last_success_at e.id db.deliveries)) [
  | inl never ↦ ground arith
  | inr (t, at') ↦
      let h = last_success_at-AtMost e.id since db.deliveries done t at' in ground arith
]

failures_since-bound :
    (id since since' : ℕ) (ds : List WebhookDelivery)
    → since' ≤ since
    → length (select (is_failure_after id since) ds) ≤ failures_since id since' ds
unfolding failures_since
failures_since-bound id since since' [] h = omega arith
failures_since-bound id since since' (d ∷ ds) h = elim (Option-cases d.last_attempt_at) [
  | inl never ↦ ground (arith, failures_since-bound id since since' ds h)
  | inr (t, at') ↦ ground (arith, failures_since-bound id since since' ds h)
]

module _ (env : Env) where
  pub long_failing-is_dead :
      (now since : ℕ) (e : WebhookEndpoint) (db : Db)
      → every (is_done_by e.id since) db.deliveries ≡ true
      → e.created_at ≤ since
      → since + get_or env.auto_disable_after_days 14 * 86_400_000 ≤ now
      → get_or env.auto_disable_min_failures 5
        ≤ length (select (is_failure_after e.id since) db.deliveries)
      → is_dead env now e db ≡ true
  unfolding is_dead
  long_failing-is_dead now since e db done old long many =
      let b = healthy_since-bound since e db done old in
      let c = failures_since-bound e.id since (healthy_since e db) db.deliveries b in ground arith

-- ===== src/Signatures/History/Senders.antt =====
-- The sender's handlers (`cancel`, `remind`, `sweepDueReminders`, `inPersonSession` of
-- signatures.service.ts) keep the audit trail.
use signara.Prelude.{
  ℕ, ◌≡◌, refl, String, true, false, not, ◌&&◌, ◌||◌, Option, none, some, ◌⊎◌, inl, inr, Bool-cases,
  List, [], ◌∷◌, Option-cases, arith, select,
}
use signara.Exec.{conflict, Outcome-cases}
use signara.Db.{
  Db, Signer, SigningRequest, ev_cancelled, ev_handed_over, is_completed, is_active, is_cc,
  is_signed, is_declined,
}
use signara.Env.{Env}
use signara.User.{AuthenticatedUser}
use signara.Signatures.Trail.{empty_metadata}
use signara.Signatures.Workflow.{ordered_signers}
use signara.Signatures.Access.{expire_if_past}
use signara.Signatures.Turn.{is_past, can_signer_act, can_sign_now}
use signara.Signatures.Control.{finish_cancel, cancel, find_own_request}
use signara.Signatures.Reminders.{
  remind, eligible_reminder_targets, dispatch_reminders, has_smtp, sweep_options, is_due, day_ms,
  sweep_requests, sweep_due_reminders,
}
use signara.Signatures.InPerson.{choose_present, finish_handover, in_person_session}
use signara.Signatures.History.{
  IsTrail, IsTrail-same, record_event-IsTrail, dispatch_reminders-IsTrail,
}
use signara.Signatures.History.Handlers.{expire-IsTrail}

module _ (env : Env) (db : Db) where
  -- A handler of a tenant's request ends where it began, or in the writes that follow its checks.
  pub cancel-state :
      (user : AuthenticatedUser) (id : ℕ) (reason : Option String) (s : Db)
      → ((cancel env user id reason s).1 ≡ s)
        ⊎ ((r : SigningRequest) × (organization_id : ℕ) × (find_own_request organization_id id s
              ≡ some r)
            × (is_completed r.status ≡ false)
            × ((cancel env user id reason s).1 ≡ finish_cancel env user reason r s))
  unfolding cancel
  cancel-state user id reason s = elim (Option-cases user.org) [
    | inl nobody ↦ inl (ground arith)
    | inr (org, member) ↦ elim (Option-cases (find_own_request org.id id s)) [
      | inl missing ↦ inl (ground arith)
      | inr (r, found) ↦ elim (Bool-cases (is_completed r.status)) [
        | inl over ↦ inl (ground arith)
        | inr live ↦ inr (r, org.id, found, live, ground arith)
      ]
    ]
  ]

  pub cancel-IsTrail :
      (user : AuthenticatedUser) (id : ℕ) (reason : Option String) (s : Db)
      → IsTrail db s
      → IsTrail db (cancel env user id reason s).1
  unfolding finish_cancel
  cancel-IsTrail user id reason s h = elim (cancel-state user id reason s) [
    | inl e ↦ rw e h
    | inr (r, organization_id, found, live, e) ↦
        rw e (record_event-IsTrail env db r.id ev_cancelled none _ _ (IsTrail-same db s _ refl h))
  ]

  pub remind-state :
      (user : AuthenticatedUser) (id : ℕ) (signer_id : Option ℕ) (s : Db)
      → ((remind env user id signer_id s).1 ≡ s)
        ⊎ ((targets : List Signer) × ((remind env user id signer_id s).1
              ≡ dispatch_reminders env id targets
                  (record empty_metadata { requested_by = some user.email })
                  s))
  unfolding remind
  remind-state user id signer_id s = elim (Option-cases user.org) [
    | inl nobody ↦ inl (ground arith)
    | inr (org, member) ↦ elim (Option-cases (find_own_request org.id id s)) [
      | inl missing ↦ inl (ground arith)
      | inr (r, found) ↦ elim (Bool-cases (is_active r.status)) [
        | inl live ↦ inr (
          eligible_reminder_targets env r
              (record { min_interval_ms = day_ms; max_reminders = none; signer_id = signer_id }) s,
          ground arith,
        )
        | inr over ↦ inl (ground arith)
      ]
    ]
  ]

  pub remind-IsTrail :
      (user : AuthenticatedUser) (id : ℕ) (signer_id : Option ℕ) (s : Db)
      → IsTrail db s
      → IsTrail db (remind env user id signer_id s).1
  remind-IsTrail user id signer_id s h = elim (remind-state user id signer_id s) [
    | inl e ↦ rw e h
    | inr (targets, e) ↦ rw e (dispatch_reminders-IsTrail env db id targets _ s h)
  ]

  sweep_requests-IsTrail :
      (rs : List SigningRequest) (n : ℕ) (s : Db)
      → IsTrail db s
      → IsTrail db (sweep_requests env rs n s).1
  unfolding sweep_requests
  sweep_requests-IsTrail [] n s h = h
  sweep_requests-IsTrail (r ∷ rs) n s h = sweep_requests-IsTrail rs _ _ (
      dispatch_reminders-IsTrail env db r.id (eligible_reminder_targets env r (sweep_options env) s)
        (record empty_metadata { automatic = some true }) s h)

  pub sweep-IsTrail : (s : Db) → IsTrail db s → IsTrail db (sweep_due_reminders env s).2
  unfolding sweep_due_reminders
  sweep-IsTrail s h = elim (Bool-cases (has_smtp env)) [
    | inl mail ↦ rw mail (sweep_requests-IsTrail (select (is_due env s) s.requests) 0 s h)
    | inr silent ↦ rw silent h
  ]

  pub in_person-state :
      (user : AuthenticatedUser) (id : ℕ) (signer_id : Option ℕ) (s : Db)
      → ((in_person_session env user id signer_id s).1 ≡ s)
        ⊎ ((r : SigningRequest) × (organization_id : ℕ) × (find_own_request organization_id id s
              ≡ some r)
            × (is_active r.status ≡ true)
            × ((in_person_session env user id signer_id s).1
                ≡ (expire_if_past env r (conflict "This signing request has expired") s).1))
        ⊎ ((r : SigningRequest) × (y : Signer) × ((in_person_session env user id signer_id s).1
              ≡ finish_handover env user r y s))
  unfolding in_person_session
  in_person-state user id signer_id s = elim (Option-cases user.org) [
    | inl nobody ↦ inl (ground arith)
    | inr (org, member) ↦ elim (Option-cases (find_own_request org.id id s)) [
      | inl missing ↦ inl (ground arith)
      | inr (r, found) ↦ elim (Bool-cases (is_active r.status)) [
        | inr over ↦ inl (ground arith)
        | inl live ↦ elim (Bool-cases (is_past env.now r.deadline)) [
          | inl late ↦ inr (inl (r, org.id, found, live, ground arith))
          | inr on_time ↦
              elim (Outcome-cases (
                choose_present signer_id
                  (select (λ y. not (is_cc y.role)) (ordered_signers r.id s)))) [
                    | inr (e, none_fits) ↦ inl (ground arith)
                    | inl (y, chosen) ↦
                        elim (Bool-cases (can_sign_now r.mode y && can_signer_act r.mode y s)) [
                          | inl turn ↦
                              elim (Bool-cases (is_signed y.status || is_declined y.status)) [
                                | inl over ↦ inl (ground arith)
                                | inr free ↦ inr (inr (r, y, ground arith))
                              ]
                          | inr early ↦ inl (ground arith)
                        ]
                  ]
        ]
      ]
    ]
  ]

  finish_handover-IsTrail :
      (user : AuthenticatedUser) (r : SigningRequest) (y : Signer) (s : Db)
      → IsTrail db s
      → IsTrail db (finish_handover env user r y s)
  unfolding finish_handover
  finish_handover-IsTrail user r y s h =
      record_event-IsTrail env db r.id ev_handed_over (some y.id) _ _ (IsTrail-same db s _ refl h)

  pub in_person-IsTrail :
      (user : AuthenticatedUser) (id : ℕ) (signer_id : Option ℕ) (s : Db)
      → IsTrail db s
      → IsTrail db (in_person_session env user id signer_id s).1
  in_person-IsTrail user id signer_id s h = elim (in_person-state user id signer_id s) [
    | inl e ↦ rw e h
    | inr (inl (r, organization_id, found, live, e)) ↦ rw e (expire-IsTrail env db r _ s h)
    | inr (inr (r, y, e)) ↦ rw e (finish_handover-IsTrail user r y s h)
  ]

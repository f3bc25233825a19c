-- ===== src/Signatures/Lifecycle/Guests.antt =====
-- The guests' other handlers (`decline` and `publicSession` of signatures.service.ts) follow the
-- lifecycle of a request.
use signara.Prelude.{
  ◌≡◌, refl, sym, ap, ◌∙◌, String, Bool, true, false, ◌&&◌, ◌==◌, Option, some, ◌⊎◌, inl, inr,
  Bool-cases, Option-cases, update_where, arith, str_eq,
}
use signara.Exec.{conflict, not_found}
use signara.Db.{
  Db, Signer, in_progress, is_active, is_sequential, find_document, update_signer, update_request,
  ev_declined, ev_viewed,
}
use signara.Env.{Env}
use signara.Signatures.Trail.{ClientContext, ctx_metadata}
use signara.Signatures.Trail.Frame.{requests-record_event}
use signara.Signatures.Turn.{is_past, can_signer_act}
use signara.Signatures.Access.{Session, find_session, expire_if_past}
use signara.Signatures.Decline.{decline_guards, finish_decline, decline_session, decline}
use signara.Signatures.Session.{
  is_open, may_still_sign, release_signer, view_signer, open_session, visit, public_session,
  refresh_demo,
}
use signara.Signatures.Demo.{demo_token}
use signara.Signatures.Lifecycle.{IsLifecycle, progresses, same-IsLifecycle, update-IsLifecycle}
use signara.Signatures.Lifecycle.Signing.{
  IsStored, find_session-IsStored, found_once, expire-IsLifecycle,
}

module _ (env : Env) where
  decline_session-state :
      (reason : Option String) (ctx : Option ClientContext) (x : Session) (s : Db)
      → ((decline_session env reason ctx x s).1 ≡ s)
        ⊎ ((is_active x.request.status ≡ true)
            × (((decline_session env reason ctx x s).1
                  ≡ (expire_if_past env x.request
                      (conflict "This signing request has expired")
                      s).1)
                ⊎ ((decline_session env reason ctx x s).1 ≡ finish_decline env reason ctx x s)))
  unfolding decline_session decline_guards
  decline_session-state reason ctx x s = elim (Bool-cases (is_active x.request.status)) [
    | inr over ↦ inl (ground arith)
    | inl active ↦ inr (active, ground arith)
  ]

  finish_decline-IsLifecycle :
      (reason : Option String) (ctx : Option ClientContext) (x : Session) (s : Db)
      → IsStored x s
      → is_active x.request.status ≡ true
      → IsLifecycle s.requests (finish_decline env reason ctx x s).requests
  unfolding finish_decline update_signer update_request
  finish_decline-IsLifecycle reason ctx x s stored active =
      let same = requests-record_event env x.signer.request_id ev_declined _ _ _ in
      elim (Bool-cases (is_sequential x.request.mode)) [
        | inr free ↦ rw free (same-IsLifecycle s.requests _ same)
        | inl held ↦ rw held (
            update-IsLifecycle s.requests _ x.signer.request_id
              (λ q. record q { status = in_progress })
              (ap
                (update_where (λ q. q.id == x.signer.request_id)
                  (λ q. record q { status = in_progress }))
                same)
              (λ q. refl)
              (λ q found.
                let here = found_once x.signer.request_id s x.request q stored.of_signer found in
                record {
                  status = progresses (ap (λ y. is_active y.status) (sym here) ∙ active);
                  organization = refl;
                  document = refl;
                }))
      ]

  pub decline-IsLifecycle :
      (token : String) (reason : Option String) (ctx : Option ClientContext) (s : Db)
      → IsLifecycle s.requests (decline env token reason ctx s).1.requests
  unfolding decline
  decline-IsLifecycle token reason ctx s = elim (Option-cases (find_session token s)) [
    | inl missing ↦ rw missing (same-IsLifecycle s.requests _ refl)
    | inr (x, found) ↦
        let stored = find_session-IsStored token s x found in
        rw found (elim (decline_session-state reason ctx x s) [
          | inl e ↦ rw e (same-IsLifecycle s.requests _ refl)
          | inr (active, inl e) ↦ rw e (expire-IsLifecycle env x.request _ s stored.by_id active)
          | inr (active, inr e) ↦ rw e (finish_decline-IsLifecycle reason ctx x s stored active)
        ])
  ]

  visit-state :
      (ctx : ClientContext) (x : Session) (s : Db)
      → ((visit env ctx x s).1 ≡ s)
        ⊎ ((is_active x.request.status ≡ true)
            × (((visit env ctx x s).1
                  ≡ (expire_if_past env x.request (not_found "Signing session has expired") s).1)
                ⊎ ((b : Bool) × ((visit env ctx x s).1 ≡ (open_session env b ctx x s).1))))
  unfolding visit
  visit-state ctx x s = elim (Option-cases (find_document x.request.document_id s)) [
    | inl missing ↦ inl (ground arith)
    | inr (d, stored) ↦ elim (Bool-cases (is_open x)) [
      | inr closed ↦ inl (ground arith)
      | inl reachable ↦ elim (Bool-cases (is_past env.now x.request.deadline)) [
        | inl late ↦ inr (ground arith, inl (ground arith))
        | inr on_time ↦ inr (
          ground arith,
          inr (
            may_still_sign x.signer.status && can_signer_act x.request.mode x.signer s,
            ground arith,
          ),
        )
      ]
    ]
  ]

  requests-release :
      (b : Bool) (y : Signer) (s : Db) → (release_signer env b y s).1.requests ≡ s.requests
  unfolding release_signer update_signer
  requests-release true y s = refl
  requests-release false y s = refl

  requests-view :
      (b : Bool) (ctx : ClientContext) (y : Signer) (s : Db)
      → (view_signer env b ctx y s).1.requests ≡ s.requests
  unfolding view_signer update_signer
  requests-view true ctx y s =
      requests-record_event env y.request_id ev_viewed (some y.id) (ctx_metadata ctx) _
  requests-view false ctx y s = refl

  requests-open_session :
      (b : Bool) (ctx : ClientContext) (x : Session) (s : Db)
      → (open_session env b ctx x s).1.requests ≡ s.requests
  unfolding open_session
  requests-open_session b ctx x s = requests-view _ ctx _ _ ∙ requests-release _ x.signer s

  -- A visit to any session but the demo's, which is set up anew once it has ended.
  pub public_session-IsLifecycle :
      (token : String) (ctx : ClientContext) (s : Db)
      → str_eq token demo_token ≡ false
      → IsLifecycle s.requests (public_session env token ctx s).1.requests
  unfolding public_session refresh_demo
  public_session-IsLifecycle token ctx s real = elim (Option-cases (find_session token s)) [
    | inl missing ↦ rw (real, missing) (same-IsLifecycle s.requests _ refl)
    | inr (x, found) ↦
        let stored = find_session-IsStored token s x found in
        rw (real, found)
          (elim (visit-state ctx x s) [
            | inl e ↦ rw e (same-IsLifecycle s.requests _ refl)
            | inr (active, inl e) ↦ rw e (expire-IsLifecycle env x.request _ s stored.by_id active)
            | inr (active, inr (b, e)) ↦
                rw e (same-IsLifecycle s.requests _ (requests-open_session b ctx x s))
          ])
  ]

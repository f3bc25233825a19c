-- ===== src/Signatures/History/Guests.antt =====
-- The other handlers of a guest (`decline` and `publicSession` of signatures.service.ts) keep the
-- audit trail.
use signara.Prelude.{
  ◌≡◌, refl, String, Bool, true, false, ◌&&◌, Option, some, ◌⊎◌, inl, inr, Bool-cases, Option-cases,
  arith, str_eq,
}
use signara.Exec.{conflict, not_found}
use signara.Db.{Db, Signer, ev_declined, ev_viewed, find_document, is_sequential}
use signara.Env.{Env}
use signara.Signatures.Trail.{ClientContext, ctx_metadata}
use signara.Signatures.Access.{Session, find_session, expire_if_past}
use signara.Signatures.Decline.{decline_guards, finish_decline, decline_session, decline}
use signara.Signatures.Turn.{is_past, can_signer_act}
use signara.Signatures.Session.{
  is_open, may_still_sign, release_signer, view_signer, open_session, visit, public_session,
  refresh_demo,
}
use signara.Signatures.Demo.{demo_token}
use signara.Signatures.History.{IsTrail, IsTrail-same, record_event-IsTrail}
use signara.Signatures.History.Handlers.{expire-IsTrail}

module _ (env : Env) (db : Db) where
  decline_guards-state :
      (x : Session) (s : Db)
      → ((decline_guards env x s).1 ≡ s)
        ⊎ ((decline_guards env x s).1
            ≡ (expire_if_past env x.request (conflict "This signing request has expired") s).1)
  unfolding decline_guards
  decline_guards-state x s = ground arith

  decline_guards-IsTrail :
      (x : Session) (s : Db) → IsTrail db s → IsTrail db (decline_guards env x s).1
  decline_guards-IsTrail x s h = elim (decline_guards-state x s) [
    | inl e ↦ rw e h
    | inr e ↦ rw e (expire-IsTrail env db x.request _ s h)
  ]

  finish_decline-IsTrail :
      (reason : Option String) (ctx : Option ClientContext) (x : Session) (s : Db)
      → IsTrail db s
      → IsTrail db (finish_decline env reason ctx x s)
  unfolding finish_decline
  finish_decline-IsTrail reason ctx x s h =
      let t =
        record_event-IsTrail env db x.signer.request_id ev_declined (some x.signer.id) _ _
          (IsTrail-same db s _ refl h) in
      elim (Bool-cases (is_sequential x.request.mode)) [
        | inl held ↦ rw held (IsTrail-same db _ _ refl t)
        | inr free ↦ rw free t
      ]

  decline_session-state :
      (reason : Option String) (ctx : Option ClientContext) (x : Session) (s : Db)
      → ((decline_session env reason ctx x s).1 ≡ (decline_guards env x s).1)
        ⊎ ((decline_session env reason ctx x s).1
            ≡ finish_decline env reason ctx x (decline_guards env x s).1)
  unfolding decline_session
  decline_session-state reason ctx x s = ground arith

  decline_session-IsTrail :
      (reason : Option String) (ctx : Option ClientContext) (x : Session) (s : Db)
      → IsTrail db s
      → IsTrail db (decline_session env reason ctx x s).1
  decline_session-IsTrail reason ctx x s h = elim (decline_session-state reason ctx x s) [
    | inl e ↦ rw e (decline_guards-IsTrail x s h)
    | inr e ↦ rw e (finish_decline-IsTrail reason ctx x _ (decline_guards-IsTrail x s h))
  ]

  pub decline-IsTrail :
      (token : String) (reason : Option String) (ctx : Option ClientContext) (s : Db)
      → IsTrail db s
      → IsTrail db (decline env token reason ctx s).1
  unfolding decline
  decline-IsTrail token reason ctx s h = elim (Option-cases (find_session token s)) [
    | inl missing ↦ rw missing h
    | inr (x, found) ↦ rw found (decline_session-IsTrail reason ctx x s h)
  ]

  visit-state :
      (ctx : ClientContext) (x : Session) (s : Db)
      → ((visit env ctx x s).1 ≡ s)
        ⊎ ((visit env ctx x s).1
            ≡ (expire_if_past env x.request (not_found "Signing session has expired") s).1)
        ⊎ ((b : Bool) × ((visit env ctx x s).1 ≡ (open_session env b ctx x s).1))
  unfolding visit
  visit-state ctx x s = elim (Option-cases (find_document x.request.document_id s)) [
    | inl missing ↦ inl (ground arith)
    | inr (d, stored) ↦ elim (Bool-cases (is_open x)) [
      | inr closed ↦ inl (ground arith)
      | inl reachable ↦ elim (Bool-cases (is_past env.now x.request.deadline)) [
        | inl late ↦ inr (inl (ground arith))
        | inr on_time ↦ inr (
            inr (
              may_still_sign x.signer.status && can_signer_act x.request.mode x.signer s,
              ground arith,
            ))
      ]
    ]
  ]

  release-IsTrail :
      (b : Bool) (y : Signer) (s : Db) → IsTrail db s → IsTrail db (release_signer env b y s).1
  unfolding release_signer
  release-IsTrail true y s h = IsTrail-same db s _ refl h
  release-IsTrail false y s h = h

  view-IsTrail :
      (b : Bool) (ctx : ClientContext) (y : Signer) (s : Db)
      → IsTrail db s
      → IsTrail db (view_signer env b ctx y s).1
  unfolding view_signer
  view-IsTrail true ctx y s h =
      record_event-IsTrail env db y.request_id ev_viewed (some y.id) (ctx_metadata ctx) _
        (IsTrail-same db s _ refl h)
  view-IsTrail false ctx y s h = h

  open_session-IsTrail :
      (b : Bool) (ctx : ClientContext) (x : Session) (s : Db)
      → IsTrail db s
      → IsTrail db (open_session env b ctx x s).1
  unfolding open_session
  open_session-IsTrail b ctx x s h = view-IsTrail _ ctx _ _ (release-IsTrail _ x.signer s h)

  -- A visit to any session but the demo's, which is set up anew once it has ended.
  pub public_session-IsTrail :
      (token : String) (ctx : ClientContext) (s : Db)
      → str_eq token demo_token ≡ false
      → IsTrail db s
      → IsTrail db (public_session env token ctx s).1
  unfolding public_session refresh_demo
  public_session-IsTrail token ctx s real h = elim (Option-cases (find_session token s)) [
    | inl missing ↦ rw (real, missing) h
    | inr (x, found) ↦
        rw (real, found)
          (elim (visit-state ctx x s) [
            | inl e ↦ rw e h
            | inr (inl e) ↦ rw e (expire-IsTrail env db x.request _ s h)
            | inr (inr (b, e)) ↦ rw e (open_session-IsTrail b ctx x s h)
          ])
  ]

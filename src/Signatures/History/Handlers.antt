-- ===== src/Signatures/History/Handlers.antt =====
-- Each handler of signatures.service.ts keeps the audit trail that it finds.
use signara.Prelude.{◌≡◌, refl, String, ◌⊎◌, inl, inr, Bool-cases, Option-cases, arith}
use signara.Exec.{Outcome-cases, HttpException}
use signara.Db.{Db, SigningRequest, update_signer}
use signara.Env.{Env}
use signara.Signatures.Trail.{ClientContext}
use signara.Signatures.Turn.{is_past}
use signara.Signatures.Access.{Session, find_session, expire_if_past}
use signara.Signatures.Sign.{Certify, SignInput, sign_guards, finish_sign, sign_session, sign}
use signara.Signatures.Sign.Guards.{sign_session-ok}
use signara.Signatures.Sign.Order.{recorded, finish_sign-eq}
use signara.Signatures.Sign.Refusal.{sign_session_throws}
use signara.Signatures.History.{
  IsTrail, IsTrail-same, record_event-IsTrail, mark_request_expired-IsTrail, capture-IsTrail,
  advance_workflow-IsTrail,
}

module _ (env : Env) (db : Db) where
  pub expire-IsTrail :
      (r : SigningRequest) (e : HttpException) (s : Db)
      → IsTrail db s
      → IsTrail db (expire_if_past env r e s).1
  expire-IsTrail r e s h = elim (Bool-cases (is_past env.now r.deadline)) [
    | inl late ↦ rw late (mark_request_expired-IsTrail env db r.id s h)
    | inr on_time ↦ rw on_time h
  ]

  -- A block of checks ends in the state that it began in, or in the expiry of the request.
  module _ (certify : Certify) where
    sign_guards-state :
        (x : Session) (s : Db)
        → ((sign_guards env certify x s).1 ≡ s)
          ⊎ ((sign_guards env certify x s).1
              ≡ (expire_if_past env x.request
                  (HttpException.conflict "This signing request has expired")
                  s).1)
    unfolding sign_guards
    sign_guards-state x s = ground arith

    sign_guards-IsTrail :
        (x : Session) (s : Db) → IsTrail db s → IsTrail db (sign_guards env certify x s).1
    sign_guards-IsTrail x s h = elim (sign_guards-state x s) [
      | inl e ↦ rw e h
      | inr e ↦ rw e (expire-IsTrail x.request _ s h)
    ]

    finish_sign-IsTrail :
        (ctx : ClientContext) (x : Session) (row : _) (values : _) (evidence : _) (s : Db)
        → IsTrail db s
        → IsTrail db (finish_sign env certify ctx x row values evidence s)
    unfolding recorded update_signer
    finish_sign-IsTrail ctx x row values evidence s h = rw finish_sign-eq (
        advance_workflow-IsTrail env db x.signer.request_id x.request.mode _ (
          record_event-IsTrail env db x.signer.request_id _ _ _ _
            (IsTrail-same db _ _ refl (capture-IsTrail env db values s h))))

    sign_session-IsTrail :
        (input : SignInput) (ctx : ClientContext) (x : Session) (s : Db)
        → IsTrail db s
        → IsTrail db (sign_session env certify input ctx x s).1
    sign_session-IsTrail input ctx x s h =
        let m = sign_session env certify input ctx x s in
        elim (Outcome-cases m.0) [
          | inl (result, e) ↦
              let g = sign_session-ok env certify input ctx x s m.1 (λ i. (e i, m.1)) in
              rw g.final
                (finish_sign-IsTrail ctx x _ g.values g.evidence _ (IsTrail-same db s _ refl h))
          | inr (err, e) ↦
              elim (sign_session_throws env certify input ctx x s m.1 {e = err} (λ i. (e i, m.1))) [
                | inl same ↦ rw same (sign_guards-IsTrail x s h)
                | inr drawn ↦ rw drawn (
                    IsTrail-same db (sign_guards env certify x s).1 _ refl
                      (sign_guards-IsTrail x s h))
              ]
        ]

    pub sign-IsTrail :
        (token : String) (input : SignInput) (ctx : ClientContext) (s : Db)
        → IsTrail db s
        → IsTrail db (sign env certify token input ctx s).1
    unfolding sign
    sign-IsTrail token input ctx s h = elim (Option-cases (find_session token s)) [
      | inl missing ↦ rw missing h
      | inr (x, found) ↦ rw found (sign_session-IsTrail input ctx x s h)
    ]

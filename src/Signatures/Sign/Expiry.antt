-- ===== src/Signatures/Sign/Expiry.antt =====
-- What a call of `sign` of signatures.service.ts does after the deadline.
use signara.Prelude.{
  ◌≡◌, ap, String, true, some, none, find-update_where, find-holds, ◌==◌, ==_iff, arith,
  update_where,
}
use signara.Exec.{throw, conflict}
use signara.Db.{Db, SigningRequest, expired, is_active, find_request, ev_expired, update_request}
use signara.Env.{Env}
use signara.Signatures.Turn.{is_past}
use signara.Signatures.Trail.{ClientContext, empty_metadata}
use signara.Signatures.Trail.Frame.{requests-record_event}
use signara.Signatures.Workflow.{mark_request_expired}
use signara.Signatures.Access.{Session, find_session}
use signara.Signatures.Sign.{Certify, SignInput, sign_guards, sign_session, sign}
use signara.Signatures.Sign.Order.{find_session-found}

module _ (env : Env) (certify : Certify) where
  sign_guards_late :
      (x : Session) (db : Db)
      → is_active x.request.status ≡ true
      → is_past env.now x.request.deadline ≡ true
      → sign_guards env certify x db ≡ (
        throw (conflict "This signing request has expired"),
        mark_request_expired env x.request.id db,
      )
  unfolding sign_guards
  sign_guards_late x db active late = ground arith

  sign_late :
      (token : String) (input : SignInput) (ctx : ClientContext) (x : Session) (db : Db)
      → find_session token db ≡ some x
      → is_active x.request.status ≡ true
      → is_past env.now x.request.deadline ≡ true
      → sign env certify token input ctx db ≡ (
        throw (conflict "This signing request has expired"),
        mark_request_expired env x.request.id db,
      )
  unfolding sign sign_session
  sign_late token input ctx x db found active late =
      let e = sign_guards_late x db active late in rw (found, e)

  requests-mark_request_expired :
      (r : SigningRequest) (db : Db)
      → (mark_request_expired env r.id db).requests
        ≡ update_where (λ q. q.id == r.id) (λ q. record q { status = expired }) db.requests
  unfolding mark_request_expired update_request
  requests-mark_request_expired r db =
      requests-record_event env r.id ev_expired none empty_metadata _

  -- A call of `sign` after the deadline of an active request is refused, and leaves the request
  -- expired.
  pub sign_expires :
      (token : String) (input : SignInput) (ctx : ClientContext) (x : Session) (db : Db)
      → find_session token db ≡ some x
      → is_active x.request.status ≡ true
      → is_past env.now x.request.deadline ≡ true
      → ((sign env certify token input ctx db).0
          ≡ throw (conflict "This signing request has expired"))
        × (find_request x.signer.request_id (sign env certify token input ctx db).1
            ≡ some (record x.request { status = expired }))
  sign_expires token input ctx x db found active late =
      let e = sign_late token input ctx x db found active late in
      let stored = (find_session-found token db x found).1 in
      let same : x.request.id ≡ x.signer.request_id =
        (==_iff _ _).0
          (find-holds (λ (r : SigningRequest). r.id == x.signer.request_id) db.requests stored) in
      (
        ap (λ p. p.0) e,
        rw (e, requests-mark_request_expired x.request db, same, find-update_where, stored)
            (ground arith),
      )

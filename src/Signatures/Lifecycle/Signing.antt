-- ===== src/Signatures/Lifecycle/Signing.antt =====
-- `sign` of signatures.service.ts follows the lifecycle of a request.
use signara.Prelude.{
  ℕ, ◌≡◌, refl, sym, ap, subst, ◌∙◌, String, true, ◌==◌, Option, none, some, ◌⊎◌, inl, inr,
  Bool-cases, Option-cases, ==_iff, find-holds, update_where, arith,
}
use signara.Exec.{conflict, Outcome-cases, HttpException}
use signara.Db.{
  Db, SigningRequest, SigningMode, Signature, completed, expired, is_active, find_request,
  update_request, ev_expired,
}
use signara.Env.{Env}
use signara.Certificates.Evidence.{CertificateEvidence}
use signara.Signatures.Trail.{ClientContext}
use signara.Signatures.Trail.Frame.{requests-record_event}
use signara.Signatures.Turn.{is_past}
use signara.Signatures.Fields.{Submitted}
use signara.Signatures.Workflow.{all_signed, advance_found, advance_workflow, mark_request_expired}
use signara.Signatures.Workflow.Completion.{requests-complete, requests_waiting}
use signara.Signatures.Access.{Session, find_session, expire_if_past}
use signara.Signatures.Sign.{Certify, SignInput, sign_guards, finish_sign, sign_session, sign}
use signara.Signatures.Sign.Guards.{sign_session-ok}
use signara.Signatures.Sign.Order.{recorded, finish_sign-eq, requests-recorded, find_session-found}
use signara.Signatures.Sign.Refusal.{sign_session_throws}
use signara.Signatures.Lifecycle.{
  IsLifecycle, find_in, completes, expires, same-IsLifecycle, update-IsLifecycle,
}

-- The request of a session is what its signer's reference finds, and what its own id finds.
pub record IsStored (x : Session) (s : Db) : Type 0 where
  pub of_signer : find_request x.signer.request_id s ≡ some x.request
  pub by_id : find_request x.request.id s ≡ some x.request

pub find_session-IsStored :
    (token : String) (s : Db) (x : Session) → find_session token s ≡ some x → IsStored x s
find_session-IsStored token s x found =
    let stored = (find_session-found token s x found).1 in
    let own =
      (==_iff x.request.id x.signer.request_id).0
        (find-holds (λ (q : SigningRequest). q.id == x.signer.request_id) s.requests stored) in
    record {
      of_signer = stored;
      by_id = subst (λ n. find_request n s ≡ some x.request) (sym own) stored;
    }

abbrev pub SameRow : (id : ℕ) (s : Db) (r q : SigningRequest) → Type 0
SameRow id s r q = find_request id s ≡ some r → find_request id s ≡ some q → r ≡ q

pub found_once : (id : ℕ) (s : Db) (r q : SigningRequest) → SameRow id s r q
found_once id s r q h k = cc

module _ (env : Env) where
  requests-expired :
      (id : ℕ) (s : Db)
      → (mark_request_expired env id s).requests
        ≡ update_where (λ q. q.id == id) (λ q. record q { status = expired }) s.requests
  unfolding mark_request_expired update_request
  requests-expired id s = requests-record_event env id ev_expired none _ _

  -- The expiry of an active request that is stored.
  pub expire-IsLifecycle :
      (r : SigningRequest) (e : HttpException) (s : Db)
      → find_request r.id s ≡ some r
      → is_active r.status ≡ true
      → IsLifecycle s.requests (expire_if_past env r e s).1.requests
  expire-IsLifecycle r e s stored active = elim (Bool-cases (is_past env.now r.deadline)) [
    | inr on_time ↦ rw on_time (same-IsLifecycle s.requests _ refl)
    | inl late ↦ rw late (
        update-IsLifecycle s.requests _ r.id (λ q. record q { status = expired })
          (requests-expired r.id s) (λ q. refl)
          (λ q found.
            let same = found_once r.id s r q stored found in
            record {
              status = expires (ap (λ y. is_active y.status) (sym same) ∙ active);
              organization = refl;
              document = refl;
            }))
  ]

  module _ (certify : Certify) where
    sign_guards-state :
        (x : Session) (s : Db)
        → ((sign_guards env certify x s).1 ≡ s)
          ⊎ ((is_active x.request.status ≡ true)
              × ((sign_guards env certify x s).1
                  ≡ (expire_if_past env x.request
                      (conflict "This signing request has expired")
                      s).1))
    unfolding sign_guards
    sign_guards-state x s = elim (Bool-cases (is_active x.request.status)) [
      | inr over ↦ inl (ground arith)
      | inl active ↦ inr (active, ground arith)
    ]

    sign_guards-IsLifecycle :
        (x : Session) (s : Db)
        → IsStored x s
        → IsLifecycle s.requests (sign_guards env certify x s).1.requests
    sign_guards-IsLifecycle x s stored = elim (sign_guards-state x s) [
      | inl e ↦ rw e (same-IsLifecycle s.requests _ refl)
      | inr (active, e) ↦ rw e (expire-IsLifecycle x.request _ s stored.by_id active)
    ]

    advanced-IsLifecycle :
        (x : Session) (mode : SigningMode) (s t : Db)
        → IsStored x s
        → is_active x.request.status ≡ true
        → t.requests ≡ s.requests
        → IsLifecycle s.requests (advance_found env (some x.request) mode t).requests
    unfolding advance_found
    advanced-IsLifecycle x mode s t stored active e =
        elim (Bool-cases (all_signed x.request.id t)) [
          | inr left ↦
              same-IsLifecycle s.requests _ (requests_waiting env x.request mode t left ∙ e)
          | inl all ↦ rw all (
              update-IsLifecycle s.requests _ x.request.id
                (λ q. record q { status = completed; completed_at = some env.now })
                (requests-complete env x.request t
                  ∙ ap
                      (update_where (λ q. q.id == x.request.id)
                        (λ q. record q { status = completed; completed_at = some env.now }))
                      e)
                (λ q. refl)
                (λ q found.
                  let same = found_once x.request.id s x.request q stored.by_id found in
                  record {
                    status = completes (ap (λ y. is_active y.status) (sym same) ∙ active);
                    organization = refl;
                    document = refl;
                  }))
        ]

    finish_sign-IsLifecycle :
        (ctx : ClientContext) (x : Session) (row : Signature) (values : Submitted)
        (evidence : Option CertificateEvidence) (s t : Db)
        → IsStored x s
        → is_active x.request.status ≡ true
        → t.requests ≡ s.requests
        → IsLifecycle s.requests (finish_sign env certify ctx x row values evidence t).requests
    unfolding advance_workflow
    finish_sign-IsLifecycle ctx x row values evidence s t stored active e =
        let u = recorded env certify ctx x row values evidence t in
        let e' : u.requests ≡ s.requests =
          requests-recorded env certify ctx x row values evidence t ∙ e in
        let stored' : find_request x.signer.request_id u ≡ some x.request =
          ap (find_in x.signer.request_id) e' ∙ stored.of_signer in
        rw (finish_sign-eq, stored') (advanced-IsLifecycle x x.request.mode s u stored active e')

    sign_session-IsLifecycle :
        (input : SignInput) (ctx : ClientContext) (x : Session) (s : Db)
        → IsStored x s
        → IsLifecycle s.requests (sign_session env certify input ctx x s).1.requests
    sign_session-IsLifecycle input ctx x s stored =
        let m = sign_session env certify input ctx x s in
        elim (Outcome-cases m.0) [
          | inl (result, e) ↦
              let g = sign_session-ok env certify input ctx x s m.1 (λ i. (e i, m.1)) in
              rw g.final
                (finish_sign-IsLifecycle ctx x _ g.values g.evidence s _ stored g.ready.active refl)
          | inr (err, e) ↦
              elim (sign_session_throws env certify input ctx x s m.1 {e = err} (λ i. (e i, m.1))) [
                | inl same ↦ rw same (sign_guards-IsLifecycle x s stored)
                | inr drawn ↦ rw drawn (sign_guards-IsLifecycle x s stored)
              ]
        ]

    pub sign-IsLifecycle :
        (token : String) (input : SignInput) (ctx : ClientContext) (s : Db)
        → IsLifecycle s.requests (sign env certify token input ctx s).1.requests
    unfolding sign
    sign-IsLifecycle token input ctx s = elim (Option-cases (find_session token s)) [
      | inl missing ↦ rw missing (same-IsLifecycle s.requests _ refl)
      | inr (x, found) ↦
          rw found (sign_session-IsLifecycle input ctx x s (find_session-IsStored token s x found))
    ]

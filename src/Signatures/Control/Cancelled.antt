-- ===== src/Signatures/Control/Cancelled.antt =====
-- What a cancelled request of signatures.service.ts allows.
use signara.Prelude.{
  ℕ, ◌≡◌, refl, ap, ◌∙◌, String, Bool, false, Option, some, none, ◌&&◌, ◌==◌, arith, Option-cases,
  inl, inr, find, find-holds, List, find-update_where, update_where,
}
use signara.Exec.{ok}
use signara.Db.{
  Db, SigningRequest, cancelled, is_active, is_completed, ev_cancelled, update_request,
  update_document,
}
use signara.Env.{Env}
use signara.User.{AuthenticatedUser, Org}
use signara.Signatures.Trail.{ClientContext}
use signara.Signatures.Trail.Frame.{requests-record_event}
use signara.Signatures.Access.{Session, find_session}
use signara.Signatures.Sign.{Certify, SignInput, SignResult, sign}
use signara.Signatures.Sign.Order.{find_session-found, sign-ok}
use signara.Signatures.Control.{find_own_request, finish_cancel, cancel}

module _ (env : Env) where
  pub requests-finish_cancel :
      (user : AuthenticatedUser) (reason : Option String) (r : SigningRequest) (db : Db)
      → (finish_cancel env user reason r db).requests
        ≡ update_where (λ q. q.id == r.id) (λ q. record q { status = cancelled }) db.requests
  unfolding finish_cancel update_request update_document
  requests-finish_cancel user reason r db = requests-record_event env r.id ev_cancelled none _ _

  pub record IsCancelling (user : AuthenticatedUser) (id : ℕ) (reason : Option String) (db db' : Db)
      : Type 0 where
    pub org : Org
    pub tenant : user.org ≡ some org
    pub request : SigningRequest
    pub own : find_own_request org.id id db ≡ some request
    pub live : is_completed request.status ≡ false
    pub final : db' ≡ finish_cancel env user reason request db

  cancel-ok :
      (user : AuthenticatedUser) (id : ℕ) (reason : Option String) (db db' : Db) {done : Bool}
      → cancel env user id reason db ≡ (ok done, db')
      → IsCancelling user id reason db db'
  unfolding cancel
  cancel-ok user id reason db db' h = elim (Option-cases user.org) [
    | inl missing ↦ absurd (ground arith)
    | inr (org, tenant) ↦ elim (Option-cases (find_own_request org.id id db)) [
      | inl missing ↦ absurd (ground arith)
      | inr (r, own) ↦ record {
        org = org;
        tenant = tenant;
        request = r;
        own = own;
        live = ground arith;
        final = ground arith;
      }
    ]
  ]

  own_id :
      (org_id id : ℕ) (db : Db) (r : SigningRequest)
      → find_own_request org_id id db ≡ some r
      → r.id ≡ id
  own_id org_id id db r h =
      let e =
        find-holds (λ (q : SigningRequest). q.id == id && q.organization_id == org_id) db.requests
          h in
      ground arith

  cancelled_row :
      (id : ℕ) (xs : List SigningRequest) (q : SigningRequest)
      → find
          (λ r. r.id == id)
          (update_where (λ r. r.id == id) (λ r. record r { status = cancelled }) xs)
        ≡ some q
      → q.status ≡ cancelled
  cancelled_row id xs q found =
      let step =
        find-update_where (λ r. r.id == id) (λ r. r.id == id)
          (λ (r : SigningRequest). record r { status = cancelled }) xs (λ y. refl) in
      elim (Option-cases (find (λ (r : SigningRequest). r.id == id) xs)) [
        | inl missing ↦ let e = (rw (step, missing) at found) in cc
        | inr (y, e) ↦
            let hit = find-holds (λ (r : SigningRequest). r.id == id) xs e in
            let e' : some (record y { status = cancelled }) ≡ some q =
              (rw (step, e, hit) at found) in
            ground arith
      ]

  -- Right after an accepted cancellation nobody can sign the request.
  pub cancel_stops_signing :
      (certify : Certify) (user : AuthenticatedUser) (id : ℕ) (reason : Option String)
      (token : String) (input : SignInput) (ctx : ClientContext) (x : Session) (db db' : Db)
      (done : Bool) (result : SignResult)
      → cancel env user id reason db ≡ (ok done, db')
      → find_session token db' ≡ some x
      → x.signer.request_id ≡ id
      → ¬ ((sign env certify token input ctx db').0 ≡ ok result)
  cancel_stops_signing certify user id reason token input ctx x db db' done result h found same h' =
      let after = sign env certify token input ctx db' in
      let c = cancel-ok user id reason db db' {done = done} h in
      let e : db'.requests
          ≡ update_where (λ q. q.id == id) (λ q. record q { status = cancelled }) db.requests =
        ap (λ d. d.requests) (c.final)
        ∙ requests-finish_cancel user reason c.request db
        ∙ ap
            (λ n.
              update_where (λ q. q.id == n)
                (λ (q : SigningRequest). record q { status = cancelled }) db.requests)
            (own_id c.org.id id db c.request c.own) in
      let stored = (find_session-found token db' x found).1 in
      let over = cancelled_row id db.requests x.request (rw (same, e) at stored) in
      let active =
        (sign-ok env certify token input ctx x db' after.1 found
          (λ i. (h' i, after.1))).ready.active in
      cc (active, ap is_active over)

-- ===== src/Signatures/Decline/Blocks.antt =====
-- What a decline of signatures.service.ts means for the signers behind.
use signara.Prelude.{
  ◌<◌, ◌≡◌, sym, ap, ◌∙◌, subst, ◌==◌, String, Bool, false, Option, some, Memᴰ, Bool-cases, inl,
  inr, arith, find-mem, update_where, mem-update_where_hit, str_eq,
}
use signara.Exec.{ok, Outcome-cases}
use signara.Db.{
  Db, Signer, declined, sequential, is_cc, is_sequential, ev_declined, update_signer,
  update_request,
}
use signara.Env.{Env}
use signara.Signatures.Turn.{can_signer_act, earlier_signed}
use signara.Signatures.Trail.{ClientContext}
use signara.Signatures.Trail.Frame.{signers-record_event}
use signara.Signatures.Access.{Session, find_session}
use signara.Signatures.Decline.{decline_guards, finish_decline, decline_session, decline}
use signara.Signatures.Sign.Order.{find_session-found, earlier_signed-mem}

module _ (env : Env) where
  decline_guards-ok :
      (x : Session) (db db' : Db) {u : Unit {0}}
      → decline_guards env x db ≡ (ok u, db')
      → (db' ≡ db) × (is_cc x.signer.role ≡ false)
  unfolding decline_guards
  decline_guards-ok x db db' h = ground arith

  decline_session-ok :
      (reason : Option String) (ctx : Option ClientContext) (x : Session) (db db' : Db)
      {done : Bool}
      → decline_session env reason ctx x db ≡ (ok done, db')
      → (db' ≡ finish_decline env reason ctx x db) × (is_cc x.signer.role ≡ false)
  unfolding decline_session
  decline_session-ok reason ctx x db db' h = elim (Outcome-cases (decline_guards env x db).0) [
    | inr (e, refused) ↦ absurd (ground arith)
    | inl (u, passed) ↦
        let (same, real) =
          decline_guards-ok x db (decline_guards env x db).1
            (λ i. (passed i, (decline_guards env x db).1)) in
        (ground arith, real)
  ]

  signers-finish_decline :
      (reason : Option String) (ctx : Option ClientContext) (x : Session) (db : Db)
      → (finish_decline env reason ctx x db).signers
        ≡ update_where (λ s. s.id == x.signer.id) (λ s. record s { status = declined }) db.signers
  unfolding finish_decline update_signer update_request
  signers-finish_decline reason ctx x db = elim (Bool-cases (is_sequential x.request.mode)) [
    | inl e ↦ rw e (signers-record_event env x.signer.request_id ev_declined _ _ _)
    | inr e ↦ rw e (signers-record_event env x.signer.request_id ev_declined _ _ _)
  ]

  -- After an accepted decline, no signer of the request who comes later in the order can act on it
  -- in sequential mode.
  pub decline_blocks :
      (token : String) (reason : Option String) (ctx : Option ClientContext) (x : Session)
      (db db' : Db) (c : Signer) {done : Bool}
      → find_session token db ≡ some x
      → decline env token reason ctx db ≡ (ok done, db')
      → c.request_id ≡ x.signer.request_id
      → x.signer.order_index < c.order_index
      → can_signer_act sequential c db' ≡ false
  unfolding decline can_signer_act
  decline_blocks token reason ctx x db db' c {done} found h same before =
      let (final, real) = decline_session-ok reason ctx x db db' {done = done} (ground arith) in
      let stored =
        find-mem (λ s. str_eq s.token token) db.signers (find_session-found token db x found).0 in
      let m : Memᴰ (record x.signer { status = declined }) db'.signers =
        subst (Memᴰ _) (sym (ap (λ d. d.signers) final ∙ signers-finish_decline reason ctx x db)) (
          mem-update_where_hit _ (λ s. record s { status = declined }) db.signers stored
            (ground arith)) in
      elim (Bool-cases (is_cc c.role)) [
        | inl copy ↦ rw copy
        | inr other ↦ elim (Bool-cases (earlier_signed c db')) [
          | inr e ↦ rw (other, e)
          | inl e ↦
              let s =
                earlier_signed-mem c (record x.signer { status = declined }) db' e m (sym same)
                  before (λ q. cc (real, ap is_cc q)) in
              cc
        ]
      ]

-- ===== src/Signatures/Sign/Refusal.antt =====
-- What a refused `sign` of signatures.service.ts writes.
use signara.Prelude.{ℕ, ◌+◌, ◌≡◌, ◌⊎◌, sym, subst, String, none, Option-cases, arith, inl, inr}
use signara.Exec.{HttpException, throw}
use signara.Db.{Db, ev_expired}
use signara.Env.{Env}
use signara.Signatures.Trail.{ClientContext, empty_metadata}
use signara.Signatures.Trail.Frame.{
  signers-record_event, signatures-record_event, fields-record_event, documents-record_event,
}
use signara.Signatures.Workflow.{mark_request_expired}
use signara.Signatures.Access.{Session, find_session}
use signara.Signatures.Sign.{Certify, SignInput, sign_guards, sign_session, sign}

-- The tables that a signature would change.
pub record SameSignatures (before after : Db) : Type 0 where
  pub signers : after.signers ≡ before.signers
  pub signatures : after.signatures ≡ before.signatures
  pub fields : after.fields ≡ before.fields
  pub documents : after.documents ≡ before.documents

mark_request_expired-Same :
    (env : Env) (id : ℕ) (db : Db) → SameSignatures db (mark_request_expired env id db)
unfolding mark_request_expired
mark_request_expired-Same env id db = record {
  signers = signers-record_event env id ev_expired none empty_metadata _;
  signatures = signatures-record_event env id ev_expired none empty_metadata _;
  fields = fields-record_event env id ev_expired none empty_metadata _;
  documents = documents-record_event env id ev_expired none empty_metadata _;
}

module _ (env : Env) (certify : Certify) where
  sign_guards-Same : (x : Session) (db : Db) → SameSignatures db (sign_guards env certify x db).1
  unfolding sign_guards
  sign_guards-Same x db = ground (arith, mark_request_expired-Same env x.request.id db)

  pub sign_session_throws :
      (input : SignInput) (ctx : ClientContext) (x : Session) (db db' : Db) {e : HttpException}
      → sign_session env certify input ctx x db ≡ (throw e, db')
      → (db' ≡ (sign_guards env certify x db).1)
        ⊎ (db' ≡ record (sign_guards env certify x db).1 {
          ids_drawn = (sign_guards env certify x db).1.ids_drawn + 1;
        })
  unfolding sign_session
  sign_session_throws input ctx x db db' h = ground arith

  -- A refused signature leaves the signers, the signatures, the fields and the documents as they
  -- were.
  pub sign_refused :
      (token : String) (input : SignInput) (ctx : ClientContext) (db db' : Db) {e : HttpException}
      → sign env certify token input ctx db ≡ (throw e, db')
      → SameSignatures db db'
  unfolding sign
  sign_refused token input ctx db db' {e} h = elim (Option-cases (find_session token db)) [
    | inl missing ↦ ground arith
    | inr (x, found) ↦ elim (sign_session_throws input ctx x db db' {e = e} (ground arith)) [
      | inl same ↦ subst (SameSignatures db) (sym same) (sign_guards-Same x db)
      | inr drawn ↦
          let s = sign_guards-Same x db in
          subst (SameSignatures db) (sym drawn) (record {
            signers = s.signers;
            signatures = s.signatures;
            fields = s.fields;
            documents = s.documents;
          })
    ]
  ]

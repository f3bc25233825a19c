-- ===== src/Signatures/Sign/Accepts.antt =====
-- When `sign` of signatures.service.ts accepts a signature.
use signara.Prelude.{◌≡◌, String, false, Option, some, get_or, map_some, arith}
use signara.Exec.{ok}
use signara.Certificates.Evidence.{CertificateEvidence}
use signara.Db.{Db, Document, find_document}
use signara.Env.{Env}
use signara.Signatures.Trail.{ClientContext}
use signara.Signatures.Fields.{Submitted, resolve_field_values}
use signara.Signatures.Access.{Session, find_session}
use signara.Signatures.Sign.{
  Certify, SignInput, hash_differs, has_signature, create_signature, sign_guards,
  certificate_evidence, sign_session, sign,
}
use signara.Signatures.Sign.Guards.{IsReady, hash_of}

module _ (env : Env) (certify : Certify) where
  sign_guards_pass :
      (x : Session) (db : Db) → IsReady env.now x db → sign_guards env certify x db ≡ (ok tt, db)
  unfolding sign_guards
  sign_guards_pass x db h =
      let a = h.active in
      let b = h.on_time in
      let c = h.not_cc in let d = h.waiting in let e = h.in_turn in ground arith

  -- A signature is accepted if the request is active and in time, the signer is waiting and their turn
  -- has come, the hash agrees, the values and the certificate are accepted, and the signer has no
  -- signature yet.
  pub sign_accepts :
      (token : String) (input : SignInput) (ctx : ClientContext) (x : Session) (db : Db)
      (d : Document) (values : Submitted) (evidence : Option CertificateEvidence)
      → find_session token db ≡ some x
      → IsReady env.now x db
      → find_document x.request.document_id db ≡ some d
      → hash_differs input.signed_hash (hash_of env x d) ≡ false
      → resolve_field_values env x.signer.request_id x.signer.id input.fields db ≡ ok values
      → certificate_evidence env certify input x (get_or input.signed_hash (hash_of env x d))
        ≡ ok evidence
      → has_signature x.signer.request_id x.signer.id db ≡ false
      → (sign env certify token input ctx db).0
        ≡ ok (record {
          signature_id = env.uuid db.ids_drawn;
          identity_assurance = map_some (λ e. e.identity_assurance) evidence;
        })
  unfolding sign sign_session create_signature
  sign_accepts token input ctx x db d values evidence found ready stored same resolved plain
        unsigned =
      let pass = sign_guards_pass x db ready in
      rw (found, pass, stored, same, resolved, plain, unsigned)

-- ===== src/Signatures/Sign/Guards.antt =====
-- When `sign` of signatures.service.ts lets a signer through, and what it has then computed.
use signara.Prelude.{
  ℕ, ◌+◌, ◌≡◌, String, true, false, Option, some, [], ◌∷◌, ◌++◌, get_or, inl, inr, Option-cases,
  arith,
}
use signara.Exec.{ok, Outcome-cases}
use signara.Certificates.Evidence.{CertificateEvidence}
use signara.Db.{Db, Document, Signature, is_active, is_cc, is_waiting, find_document}
use signara.Env.{Env}
use signara.Signatures.Turn.{is_past, can_signer_act}
use signara.Signatures.Trail.{ClientContext}
use signara.Signatures.Fields.{Submitted, resolve_field_values}
use signara.Signatures.Access.{Session}
use signara.Signatures.Sign.{
  Certify, SignInput, SignResult, hash_differs, has_signature, sign_guards, certificate_evidence,
  signature_row, finish_sign, sign_session,
}

-- What must hold of a session, at the time of the call, for a signature to be accepted.
pub record IsReady (now : ℕ) (x : Session) (db : Db) : Type 0 where
  pub active : is_active x.request.status ≡ true
  pub on_time : is_past now x.request.deadline ≡ false
  pub not_cc : is_cc x.signer.role ≡ false
  pub waiting : is_waiting x.signer.status ≡ true
  pub in_turn : can_signer_act x.request.mode x.signer db ≡ true

abbrev pub hash_of : Env → Session → Document → String
hash_of env x d = env.content_hash d.file_key x.signer.email x.signer.request_id

-- The table with the new signature, and the id that it took.
abbrev pub with_signature : Signature → Db → Db
with_signature row db = record db {
  signatures = db.signatures ++ row ∷ [];
  ids_drawn = db.ids_drawn + 1;
}

module _ (env : Env) (certify : Certify) where
  pub sign_guards-ok :
      (x : Session) (db db' : Db) {u : Unit {0}}
      → sign_guards env certify x db ≡ (ok u, db')
      → (db' ≡ db) × IsReady env.now x db
  unfolding sign_guards
  sign_guards-ok x db db' h = ground arith

  module _ (input : SignInput) (ctx : ClientContext) (x : Session) where
    abbrev pub new_row : Document → Option CertificateEvidence → Db → Signature
    new_row d evidence db =
        signature_row env certify (env.uuid db.ids_drawn) input ctx x
          (get_or input.signed_hash (hash_of env x d)) evidence

    -- A call of `sign` that returned: what it found, and the state that it left.
    pub record IsSigning (db : Db) (result : SignResult) (db' : Db) : Type 0 where
      pub ready : IsReady env.now x db
      pub document : Document
      pub stored : find_document x.request.document_id db ≡ some document
      pub same_hash : hash_differs input.signed_hash (hash_of env x document) ≡ false
      pub values : Submitted
      pub resolved :
          resolve_field_values env x.signer.request_id x.signer.id input.fields db ≡ ok values
      pub evidence : Option CertificateEvidence
      pub certified :
          certificate_evidence env certify input x
            (get_or input.signed_hash (hash_of env x document))
          ≡ ok evidence
      pub unsigned : has_signature x.signer.request_id x.signer.id db ≡ false
      pub reported : result.signature_id ≡ env.uuid db.ids_drawn
      pub final :
          db'
          ≡ finish_sign env certify ctx x
              (new_row document evidence db)
              values
              evidence
              (with_signature (new_row document evidence db) db)

    pub sign_session-ok :
        (db db' : Db) {result : SignResult}
        → sign_session env certify input ctx x db ≡ (ok result, db')
        → IsSigning db result db'
    unfolding sign_session
    sign_session-ok db db' h = elim (Outcome-cases (sign_guards env certify x db).0) [
      | inr (e, refused) ↦ absurd (ground arith)
      | inl (u, passed) ↦
          let (same, ready) =
            sign_guards-ok x db (sign_guards env certify x db).1
              (λ i. (passed i, (sign_guards env certify x db).1)) in
          elim (Option-cases (find_document x.request.document_id db)) [
            | inl missing ↦ absurd (ground arith)
            | inr (d, stored) ↦
                elim (Outcome-cases
                  (resolve_field_values env x.signer.request_id x.signer.id input.fields db)) [
                    | inr (e, refused) ↦ absurd (ground arith)
                    | inl (values, resolved) ↦
                        elim (Outcome-cases (
                          certificate_evidence env certify input x
                            (get_or input.signed_hash (hash_of env x d)))) [
                              | inr (e, refused) ↦ absurd (ground arith)
                              | inl (evidence, certified) ↦ record {
                                ready = ready;
                                document = d;
                                stored = stored;
                                same_hash = ground arith;
                                values = values;
                                resolved = resolved;
                                evidence = evidence;
                                certified = certified;
                                unsigned = ground arith;
                                reported = ground arith;
                                final = ground arith;
                              }
                            ]
                  ]
          ]
    ]

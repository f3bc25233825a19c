-- ===== src/Signatures/Sign/Evidence.antt =====
-- The signature row that `sign` of signatures.service.ts stores.
use signara.Prelude.{
  ◌≡◌, refl, ap, ◌∙◌, ◌⊎◌, inl, subst, String, false, Option, none, some, [], ◌∷◌, ◌++◌, get_or,
  eq_iff, any, ◌&&◌, ◌==◌, arith,
}
use signara.Exec.{ok}
use signara.Certificates.Evidence.{CertificateEvidence}
use signara.Db.{Db, Document, Signature, find_document, update_signer}
use signara.Env.{Env}
use signara.Signatures.Trail.{ClientContext}
use signara.Signatures.Trail.Frame.{signatures-record_event}
use signara.Signatures.Fields.{Submitted}
use signara.Signatures.Fields.Capture.{capture_field_values-OnlyFields}
use signara.Signatures.Workflow.{advance_workflow}
use signara.Signatures.Workflow.Frame.{advance_found-Same}
use signara.Signatures.Access.{Session, find_session}
use signara.Signatures.Sign.{Certify, SignInput, SignResult, hash_differs, finish_sign, sign}
use signara.Signatures.Sign.Guards.{hash_of, new_row}
use signara.Signatures.Sign.Order.{recorded, finish_sign-eq, sign-ok}

-- The hash that is recorded, as far as the code ties it to the document: the document's own hash,
-- or the empty text that was submitted for it.
abbrev pub IsDocumentHash : Option String → String → String → Type 0
IsDocumentHash submitted content_hash recorded_hash =
    (recorded_hash ≡ content_hash) ⊎ ((submitted ≡ some "") × (recorded_hash ≡ ""))

accepted_hash :
    (submitted : Option String) (content_hash : String)
    → hash_differs submitted content_hash ≡ false
    → IsDocumentHash submitted content_hash (get_or submitted content_hash)
unfolding hash_differs
accepted_hash none content_hash h = inl refl
accepted_hash (some s) content_hash h = ground (arith, eq_iff s "", eq_iff s content_hash)

module _ (env : Env) (certify : Certify) where
  signatures-recorded :
      (ctx : ClientContext) (x : Session) (row : Signature) (values : Submitted)
      (evidence : Option CertificateEvidence) (db : Db)
      → (recorded env certify ctx x row values evidence db).signatures ≡ db.signatures
  unfolding recorded update_signer
  signatures-recorded ctx x row values evidence db =
      signatures-record_event env x.signer.request_id _ _ _ _
      ∙ ap (λ d. d.signatures) (capture_field_values-OnlyFields env values db)

  pub signatures-finish_sign :
      (ctx : ClientContext) (x : Session) (row : Signature) (values : Submitted)
      (evidence : Option CertificateEvidence) (db : Db)
      → (finish_sign env certify ctx x row values evidence db).signatures ≡ db.signatures
  unfolding advance_workflow
  signatures-finish_sign ctx x row values evidence db =
      ap (λ d. d.signatures) (finish_sign-eq env certify ctx x row values evidence db)
      ∙ (advance_found-Same env _ x.request.mode _).signatures
      ∙ signatures-recorded ctx x row values evidence db

  module _ (token : String) (input : SignInput) (ctx : ClientContext) (x : Session) where
    -- The row that an accepted signature adds.
    pub record IsRecorded (db : Db) (row : Signature) (db' : Db) : Type 0 where
      pub appended : db'.signatures ≡ db.signatures ++ row ∷ []
      pub by : row.signer_id ≡ x.signer.id
      pub on : row.request_id ≡ x.signer.request_id
      pub first :
          any (λ y. y.request_id == x.signer.request_id && y.signer_id == x.signer.id) db.signatures
          ≡ false

    -- An accepted signature adds exactly one row, for the signer of the token and the request, who
    -- had none; its hash is that of the stored document, or the empty text that the caller sent.
    pub sign_records :
        (db db' : Db) (d : Document) {result : SignResult}
        → find_session token db ≡ some x
        → find_document x.request.document_id db ≡ some d
        → sign env certify token input ctx db ≡ (ok result, db')
        → (row : Signature) × IsRecorded db row db'
          × (result.signature_id ≡ row.id)
          × IsDocumentHash input.signed_hash (hash_of env x d) row.signed_hash
    sign_records db db' d found stored h =
        let g = sign-ok env certify token input ctx x db db' found h in
        let same : g.document ≡ d = (cc (g.stored, stored)) in
        (
          new_row env certify input ctx x g.document g.evidence db,
          record {
            appended =
                ap (λ s. s.signatures) g.final
                ∙ signatures-finish_sign ctx x _ g.values g.evidence _;
            by = refl;
            on = refl;
            first = g.unsigned;
          },
          g.reported,
          subst
              (λ (y : Document).
                IsDocumentHash input.signed_hash (hash_of env x y)
                  (get_or input.signed_hash (hash_of env x g.document)))
              same (accepted_hash input.signed_hash (hash_of env x g.document) g.same_hash),
        )

    -- Whatever the document, an accepted signature that came with an empty text for its hash is
    -- recorded with an empty hash.
    pub sign_empty_hash :
        (db db' : Db) {result : SignResult}
        → find_session token db ≡ some x
        → input.signed_hash ≡ some ""
        → sign env certify token input ctx db ≡ (ok result, db')
        → (row : Signature) × IsRecorded db row db' × (row.signed_hash ≡ "")
    sign_empty_hash db db' found empty h =
        let g = sign-ok env certify token input ctx x db db' found h in
        (
          new_row env certify input ctx x g.document g.evidence db,
          record {
            appended =
                ap (λ s. s.signatures) g.final
                ∙ signatures-finish_sign ctx x _ g.values g.evidence _;
            by = refl;
            on = refl;
            first = g.unsigned;
          },
          ap (λ o. get_or o (hash_of env x g.document)) empty,
        )

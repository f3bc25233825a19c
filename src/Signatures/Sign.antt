-- ===== src/Signatures/Sign.antt =====
-- Recording a signature (`sign` and `computeContentHash` of signatures.service.ts).
pub mod Guards
pub mod Order
pub mod Refusal
pub mod Evidence
pub mod Values
pub mod Once
pub mod Accepts
pub mod Expiry
pub mod Certified
use signara.Prelude.{
  ℕ, ◌+◌, String, Bool, true, false, not, ◌&&◌, ◌||◌, ◌==◌, str_eq, Option, none, some, [], ◌∷◌,
  ◌++◌, if◌then◌else◌, get_or, or_else, map_some, is_some, truthy, any, length,
}
use signara.Exec.{
  Exec, Outcome, ok, throw, bad_request, conflict, not_found, internal, pure, gets, modify,
  throw_if, require, ◌>>=◌, ◌>>◌,
}
use signara.Certificates.Assurance.{StoredAssurance, in_full, unsigned_assurance}
use signara.Certificates.Evidence.{CertificateRequest, CertificateEvidence}
use signara.Db.{
  Db, Signature, SignatureType, Metadata, typed, signed, ev_signed, is_active, is_cc, is_signed,
  is_declined, is_waiting, is_certificate, find_document, update_signer,
}
use signara.Env.{Env}
use signara.Signatures.Turn.{can_signer_act}
use signara.Signatures.Trail.{ClientContext, ctx_metadata, record_event}
use signara.Signatures.Fields.{Submitted, resolve_field_values, capture_field_values}
use signara.Signatures.Workflow.{advance_workflow}
use signara.Signatures.Access.{Session, find_session, expire_if_past}

pub record SignInput : Type 0 where
  pub type : Option SignatureType
  pub certificate_serial : Option String
  pub signed_hash : Option String
  pub crypto_algorithm : Option String
  pub certificate_id : Option ℕ
  pub signature_value : Option String
  pub fields : Option Submitted

pub record SignResult : Type 0 where
  pub signature_id : ℕ
  pub identity_assurance : Option StoredAssurance

-- `input.signedHash && input.signedHash !== contentHash`
unfoldable pub hash_differs : Option String → String → Bool
hash_differs none content_hash = false
hash_differs (some h) content_hash = not (str_eq h "") && not (str_eq h content_hash)

abbrev asks_certificate : SignInput → Bool
asks_certificate input =
    get_or (map_some is_certificate input.type) false || is_some input.certificate_id

-- `@@unique([requestId, signerId])` of the table
abbrev pub has_signature : ℕ → ℕ → Db → Bool
has_signature request_id signer_id db =
    any (λ x. x.request_id == request_id && x.signer_id == signer_id) db.signatures

-- `certificates.signWithCertificate`, which reads the certificate tables and the key store.
abbrev pub Certify : Type 0
Certify = CertificateRequest → Outcome CertificateEvidence

module _ (env : Env) (certify : Certify) where
  -- The checks before any signing work, in the order of the source.
  unfoldable pub sign_guards : Session → Exec Db (Unit {0})
  sign_guards x = do
    throw_if (not (is_active x.request.status))
        (conflict "This signing request is no longer active")
    expire_if_past env x.request (conflict "This signing request has expired")
    throw_if (is_cc x.signer.role) (bad_request "Carbon-copy recipients cannot sign")
    throw_if (is_signed x.signer.status) (conflict "Already signed")
    throw_if (is_declined x.signer.status) (conflict "Signing session was declined")
    may_act ← gets (can_signer_act x.request.mode x.signer)
    throw_if (not (is_waiting x.signer.status) || not may_act)
        (conflict "Not your turn — this request is in sequential order")

  unfoldable pub certificate_evidence :
      SignInput → Session → String → Outcome (Option CertificateEvidence)
  certificate_evidence input x final_hash =
      if asks_certificate input
      then elim input.certificate_id [
        | none ↦ throw (bad_request "certificateId is required for certificate signatures")
        | some id ↦
            elim (certify (record {
              organization_id = x.request.organization_id;
              certificate_id = id;
              signer_user_id = x.signer.user_id;
              signer_email = x.signer.email;
              content_hash = final_hash;
              provided_signature = input.signature_value;
            })) [ ok e ↦ ok (some e) | throw err ↦ throw err ]
      ]
      else if truthy input.signature_value
      then throw (bad_request "signatureValue requires certificateId (certificate-backed signing)")
      else ok none

  abbrev pub signature_row :
      ℕ → SignInput → ClientContext → Session → String → Option CertificateEvidence → Signature
  signature_row id input ctx x final_hash evidence = record {
    id = id;
    request_id = x.signer.request_id;
    document_id = x.request.document_id;
    signer_id = x.signer.id;
    type = get_or input.type typed;
    certificate_id = map_some (λ e. e.certificate_id) evidence;
    certificate_serial =
        or_else input.certificate_serial (map_some (λ e. e.serial_number) evidence);
    signed_hash = final_hash;
    signature_value = map_some (λ e. e.signature_value) evidence;
    signature_format = map_some (λ e. e.signature_format) evidence;
    crypto_algorithm =
        get_or (or_else input.crypto_algorithm (map_some (λ e. e.crypto_algorithm) evidence))
          "SHA-256";
    identity_assurance =
        get_or (map_some (λ e. e.identity_assurance) evidence)
          (in_full (unsigned_assurance false (is_some x.signer.user_id)));
    ip_address = ctx.ip_address;
    user_agent = ctx.user_agent;
  }

  -- The insert, whose unique index refuses a second signature of the signer (P2002).
  unfoldable pub create_signature : Signature → Exec Db (Unit {0})
  create_signature row db =
      if has_signature row.request_id row.signer_id db
      then (throw (conflict "Already signed"), record db { ids_drawn = db.ids_drawn + 1 })
      else (
        ok tt,
        record db { signatures = db.signatures ++ row ∷ []; ids_drawn = db.ids_drawn + 1 },
      )

  abbrev sign_metadata :
      ClientContext → Session → Signature → Submitted → Option CertificateEvidence → Metadata
  sign_metadata ctx x row values evidence = record (ctx_metadata ctx) {
    signature_id = some row.id;
    signature_type = some row.type;
    fields_captured = if length values == 0 then none else some (length values);
    certificate_serial = row.certificate_serial;
    certificate_id = row.certificate_id;
    identity_assurance = map_some (λ e. e.identity_assurance) evidence;
    in_person =
        if get_or (map_some (str_eq "in_person") x.signer.auth_method) false
        then some true
        else none;
  }

  -- From the captured values to the advanced workflow; nothing here throws.
  unfoldable pub finish_sign :
      ClientContext → Session → Signature → Submitted → Option CertificateEvidence → Db → Db
  unfolding update_signer
  finish_sign ctx x row values evidence db =
      let db1 = capture_field_values env values db in
      let db2 =
        update_signer x.signer.id
          (λ s. record s {
            status = signed;
            signed_at = some env.now;
            auth_method = if is_some evidence then some "certificate" else x.signer.auth_method;
          })
          db1 in
      let db3 =
        record_event env x.signer.request_id ev_signed (some x.signer.id)
          (sign_metadata ctx x row values evidence) db2 in
      advance_workflow env x.signer.request_id x.request.mode db3

  unfoldable pub sign_session : SignInput → ClientContext → Session → Exec Db SignResult
  unfolding create_signature
  sign_session input ctx x = do
    sign_guards x
    document ← λ db. require (find_document x.request.document_id db) (internal "P2025") db
    let content_hash = env.content_hash document.file_key x.signer.email x.signer.request_id
    throw_if (hash_differs input.signed_hash content_hash)
        (bad_request "signedHash does not match the current document contents")
    let final_hash = get_or input.signed_hash content_hash
    values ← λ db. (resolve_field_values env x.signer.request_id x.signer.id input.fields db, db)
    evidence ← λ db. (certificate_evidence input x final_hash, db)
    id ← gets (λ db. env.uuid db.ids_drawn)
    let row = signature_row id input ctx x final_hash evidence
    create_signature row
    modify (finish_sign ctx x row values evidence)
    pure (record {
      signature_id = row.id;
      identity_assurance = map_some (λ e. e.identity_assurance) evidence;
    })

  unfoldable pub sign : String → SignInput → ClientContext → Exec Db SignResult
  sign token input ctx = do
    x ← λ db. require (find_session token db) (not_found "Signing session not found") db
    sign_session input ctx x

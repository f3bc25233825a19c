-- ===== src/Signatures/Sign/Certified.antt =====
-- The certificate behind a signature that `sign` of signatures.service.ts accepts, where signing with
-- a certificate is that of certificates.service.ts.
use signara.Prelude.{
  ℕ, ◌≡◌, refl, ap, ◌∙◌, String, true, Option, some, inl, inr, arith, Option-cases, get_or,
  map_some,
}
use signara.Exec.{ok, Outcome-cases}
use signara.Certificates.Evidence.{CertificateRequest, CertificateEvidence}
use signara.Certificates.Rows.{SigningCertificate, Certs, CertEnv}
use signara.Certificates.Signing.{sign_with_certificate}
use signara.Certificates.Signing.Accepted.{IsFit, IsSignatureBy, IsCertified, sign-IsCertified}
use signara.Db.{Db, Signature}
use signara.Env.{Env}
use signara.Signatures.Trail.{ClientContext}
use signara.Signatures.Access.{Session, find_session}
use signara.Signatures.Sign.{
  Certify, SignInput, SignResult, asks_certificate, certificate_evidence, sign,
}
use signara.Signatures.Sign.Guards.{hash_of, new_row}
use signara.Signatures.Sign.Order.{sign-ok}
use signara.Signatures.Sign.Evidence.{IsRecorded, signatures-finish_sign}

-- What `sign` asks of the certificates service.
abbrev pub request_of : SignInput → Session → String → ℕ → CertificateRequest
request_of input x digest id = record {
  organization_id = x.request.organization_id;
  certificate_id = id;
  signer_user_id = x.signer.user_id;
  signer_email = x.signer.email;
  content_hash = digest;
  provided_signature = input.signature_value;
}

module _ (env : Env) (certs_env : CertEnv) (certs : Certs) where
  abbrev pub certify : Certify
  certify = sign_with_certificate certs_env certs

  evidence-IsCertified :
      (input : SignInput) (x : Session) (digest : String) (evidence : Option CertificateEvidence)
      → asks_certificate input ≡ true
      → certificate_evidence env certify input x digest ≡ ok evidence
      → (id : ℕ) × (e : CertificateEvidence) × (evidence ≡ some e)
        × IsCertified certs_env certs (request_of input x digest id) e
  unfolding certificate_evidence
  evidence-IsCertified input x digest evidence asks h = elim (Option-cases input.certificate_id) [
    | inl unnamed ↦ absurd (ground arith)
    | inr (id, named) ↦ elim (Outcome-cases (certify (request_of input x digest id))) [
      | inr (err, refused) ↦ absurd (ground arith)
      | inl (e, given) ↦ (
        id,
        e,
        ground arith,
        sign-IsCertified certs_env certs (request_of input x digest id) e given,
      )
    ]
  ]

  -- The certificate that a signature row names, and how it came to sign.
  pub record IsBacked (input : SignInput) (x : Session) (row : Signature) : Type 0 where
    pub certificate : SigningCertificate
    pub id : ℕ
    pub fit : IsFit certs_env certs (request_of input x row.signed_hash id) certificate
    pub named : row.certificate_id ≡ some certificate.id
    pub value : String
    pub value_stored : row.signature_value ≡ some value
    pub value_by : IsSignatureBy certs_env certificate row.signed_hash value

  -- A signature that asks for a certificate is accepted only with one of the request's tenant that
  -- is active, not revoked, not expired and bound to the signer by email or user; the row that is
  -- stored names it, and its value verifies over the stored hash under that certificate or was made
  -- over it with its stored key.
  pub sign-IsBacked :
      (token : String) (input : SignInput) (ctx : ClientContext) (x : Session) (db db' : Db)
      {result : SignResult}
      → find_session token db ≡ some x
      → asks_certificate input ≡ true
      → sign env certify token input ctx db ≡ (ok result, db')
      → (row : Signature) × IsRecorded env certify token input ctx x db row db'
        × IsBacked input x row
  sign-IsBacked token input ctx x db db' found asks h =
      let g = sign-ok env certify token input ctx x db db' found h in
      let digest = get_or input.signed_hash (hash_of env x g.document) in
      let (id, e, given, by) = evidence-IsCertified input x digest g.evidence asks g.certified in
      (
        new_row env certify input ctx x g.document g.evidence db,
        record {
          appended =
              ap (λ s. s.signatures) g.final
              ∙ signatures-finish_sign env certify ctx x _ g.values g.evidence _;
          by = refl;
          on = refl;
          first = g.unsigned;
        },
        record {
          certificate = by.certificate;
          id = id;
          fit = by.fit;
          named = ap (map_some (λ y. y.certificate_id)) given ∙ ap some by.reported;
          value = e.signature_value;
          value_stored = ap (map_some (λ y. y.signature_value)) given;
          value_by = by.value_by;
        },
      )

-- ===== src/Certificates/Evidence.antt =====
-- What signing with a certificate is asked and what it gives (the `CertificateEvidence` of
-- apps/api/src/modules/certificates/certificates.service.ts).
use signara.Prelude.{ℕ, String, Option}
use signara.Certificates.Assurance.{StoredAssurance}

pub record CertificateRequest : Type 0 where
  pub organization_id : ℕ
  pub certificate_id : ℕ
  pub signer_user_id : Option ℕ
  pub signer_email : String
  pub content_hash : String
  pub provided_signature : Option String

pub record CertificateEvidence : Type 0 where
  pub certificate_id : ℕ
  pub serial_number : String
  pub signature_value : String
  pub signature_format : String
  pub crypto_algorithm : String
  pub identity_assurance : StoredAssurance

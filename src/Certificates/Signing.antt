-- ===== src/Certificates/Signing.antt =====
-- Signing with a certificate (`signWithCertificate` of certificates.service.ts).
pub mod Accepted
use Prim.Native.String.{◌++◌ as ◌<>◌}
use signara.Prelude.{
  ℕ, String, Bool, true, false, not, ◌&&◌, ◌||◌, ◌==◌, str_eq, Option, none, some, if◌then◌else◌,
  get_or, map_some, is_some, truthy, is_id, ltb,
}
use signara.Exec.{Outcome, ok, throw, bad_request, forbidden, not_found, internal}
use signara.Crypto.{decrypt_secret}
use signara.Text.{Text}
use signara.Accounts.{find_user}
use signara.Certificates.Assurance.{
  ProviderValidation, dv, ov, ev, IdentityAssurance, handed_on, compute_identity_assurance,
}
use signara.Certificates.Evidence.{CertificateRequest, CertificateEvidence}
use signara.Certificates.Rows.{SigningCertificate, Certs, CertEnv, is_active_certificate}
use signara.Certificates.Issue.{find_own_certificate, master_key_of}

-- `publicKey.asymmetricKeyType ?? 'rsa'`
abbrev key_type_or : Option String → String
key_type_or t = get_or t "rsa"

abbrev pub hash_name : String → String
hash_name key_type = if str_eq key_type "ed25519" then "ed25519" else "sha256"

abbrev pub format_label : String → String
format_label key_type =
    if str_eq key_type "ec"
    then "ECDSA-SHA256"
    else if str_eq key_type "ed25519"
    then "Ed25519"
    else "RSA-SHA256"

module _ (env : CertEnv) where
  abbrev level_named : String → Option ProviderValidation
  level_named level =
      if str_eq level "DV"
      then some dv
      else if str_eq level "OV"
      then some ov
      else if str_eq level "EV"
      then some ev
      else none

  abbrev pub validation_level : Option String → Option ProviderValidation
  validation_level none = none
  validation_level (some raw) = level_named (env.upper raw)

  abbrev pub signer_has_mfa : Option ℕ → Certs → Bool
  signer_has_mfa none s = false
  signer_has_mfa (some id) s = get_or (map_some (λ u. u.mfa_enabled) (find_user id s.users)) false

  -- `certMatchesSigner`
  unfoldable pub matches_signer : SigningCertificate → CertificateRequest → Bool
  matches_signer c input =
      get_or (map_some (λ e. str_eq (env.lower e) (env.lower input.signer_email)) c.email) false
      || get_or (map_some (λ u. is_id u input.signer_user_id) c.user_id) false

  -- The checks of the row, in the order of the source.
  unfoldable pub check_certificate :
      CertificateRequest → Option SigningCertificate → Outcome SigningCertificate
  check_certificate input none = throw (not_found "Certificate not found")
  check_certificate input (some c) =
      if not (is_active_certificate c.status) || is_some c.revoked_at
      then throw (forbidden "Certificate is not active")
      else if ltb c.not_after env.now
      then throw (forbidden "Certificate expired")
      else if not (matches_signer c input)
      then throw (forbidden "Certificate identity does not match the signer")
      else ok c

  -- A signature that the caller brought, which must verify under the certificate.
  unfoldable pub check_provided : SigningCertificate → String → String → String → Outcome String
  check_provided c key_type content_hash provided =
      elim (env.verify_digest (hash_name key_type) content_hash c.certificate_pem provided) [
        | none ↦ throw (internal "crypto")
        | some valid ↦
            if valid
            then ok provided
            else throw (forbidden "Provided signature does not verify against the certificate")
      ]

  abbrev made : Option String → Outcome String
  made none = throw (internal "crypto")
  made (some value) = ok value

  -- A signature by the key that the deployment holds.
  unfoldable pub sign_held : Text → String → String → Outcome String
  sign_held private_key_enc key_type content_hash = elim (master_key_of env) [
    | throw e ↦ throw e
    | ok master ↦ elim (decrypt_secret env.cipher private_key_enc master) [
      | throw e ↦ throw e
      | ok private_key ↦ made (env.sign_digest (hash_name key_type) content_hash private_key)
    ]
  ]

  unfoldable pub signature_value : SigningCertificate → String → CertificateRequest → Outcome String
  unfolding check_provided sign_held
  signature_value c key_type input =
      if truthy input.provided_signature
      then check_provided c key_type input.content_hash (get_or input.provided_signature "")
      else elim c.private_key_enc [
        | none ↦ throw (
            bad_request
              "This certificate is held by the provider — the signature must be supplied (signatureValue)")
        | some enc ↦ sign_held enc key_type input.content_hash
      ]

  abbrev assurance_of : SigningCertificate → CertificateRequest → Certs → IdentityAssurance
  assurance_of c input s = compute_identity_assurance (record {
    certificate_valid = true;
    cert_identity_match = true;
    account_verified = is_some input.signer_user_id;
    mfa_enabled = signer_has_mfa input.signer_user_id s;
    revocation_checked = false;
    provider_validation = validation_level c.validation_level;
  })

  abbrev evidence_of :
      SigningCertificate → String → String → CertificateRequest → Certs → CertificateEvidence
  evidence_of c key_type value input s = record {
    certificate_id = c.id;
    serial_number = c.serial_number;
    signature_value = value;
    signature_format = format_label key_type;
    crypto_algorithm = hash_name key_type <> " (detached — signed over content digest)";
    identity_assurance = handed_on (assurance_of c input s);
  }

  unfoldable pub sign_checked :
      SigningCertificate → CertificateRequest → Certs → Outcome CertificateEvidence
  sign_checked c input s = elim (env.public_key_type c.certificate_pem) [
    | none ↦ throw (internal "crypto")
    | some t ↦ elim (signature_value c (key_type_or t) input) [
      | throw e ↦ throw e
      | ok value ↦ ok (evidence_of c (key_type_or t) value input s)
    ]
  ]

  unfoldable pub sign_with_certificate : Certs → CertificateRequest → Outcome CertificateEvidence
  unfolding sign_checked
  sign_with_certificate s input =
      elim (check_certificate input
        (find_own_certificate input.organization_id input.certificate_id s)) [
          | throw e ↦ throw e
          | ok c ↦ sign_checked c input s
        ]

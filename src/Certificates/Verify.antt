-- ===== src/Certificates/Verify.antt =====
-- The verification endpoint (`verify` of certificates.service.ts). It takes no caller: the lookup by id
-- is not scoped to a tenant.
pub mod Verdict
use signara.Prelude.{
  ℕ, ◌==◌, String, Bool, true, false, ◌&&◌, Option, none, some, List, [], ◌∷◌, ◌++◌, if◌then◌else◌,
  get_or, map_some, truthy, ltb, find,
}
use signara.Exec.{Outcome, ok, throw, bad_request, not_found}
use signara.Certificates.Assurance.{IdentityAssurance, compute_identity_assurance}
use signara.Certificates.Rows.{SigningCertificate, Certs, CertEnv, NormalizedPem}
use signara.Certificates.Parse.{parse_certificate_pem}

pub record VerifyInput : Type 0 where
  pub certificate_pem : Option String
  pub certificate_id : Option ℕ
  pub signature_value : Option String
  pub signed_hash : Option String

-- The texts of `reasons`, in the order in which the source tests them.
pub data Reason : Type 0 where
  not_yet_valid expired_already does_not_verify verification_failed : Reason

pub record Verification : Type 0 where
  pub valid : Bool
  pub serial_number : String
  pub subject_dn : String
  pub issuer_dn : String
  pub not_before : ℕ
  pub not_after : ℕ
  pub email : Option String
  pub signature_verified : Option Bool
  pub identity_assurance : IdentityAssurance
  pub reasons : List Reason

abbrev no_reasons : List Reason → Bool
no_reasons [] = true
no_reasons _ = false

module _ (env : CertEnv) where
  -- The PEM of the row that the id names, else the one that is given.
  unfoldable pub named_pem : VerifyInput → Certs → Outcome (Option String)
  named_pem input s = elim input.certificate_id [
    | some id ↦ elim (find (λ c. c.id == id) s.certificates) [
      | none ↦ throw (not_found "Certificate not found")
      | some c ↦ ok (some c.certificate_pem)
    ]
    | none ↦ ok input.certificate_pem
  ]

  unfoldable pub pem_to_verify : VerifyInput → Certs → Outcome String
  unfolding named_pem
  pem_to_verify input s = elim (named_pem input s) [
    | throw e ↦ throw e
    | ok pem ↦
        if truthy pem
        then ok (get_or pem "")
        else throw (bad_request "certificatePem or certificateId is required")
  ]

  abbrev date_reasons : NormalizedPem → List Reason
  date_reasons n =
      (if ltb env.now n.not_before then not_yet_valid ∷ [] else [])
      ++ (if ltb n.not_after env.now then expired_already ∷ [] else [])

  -- `signatureVerified` and the reasons that the check of the signature adds
  unfoldable pub check_signature : String → VerifyInput → Option Bool × List Reason
  check_signature pem input =
      if truthy input.signature_value && truthy input.signed_hash
      then elim (env.verify_digest "sha256" (get_or input.signed_hash "") pem
          (get_or input.signature_value "")) [
            | none ↦ (none, verification_failed ∷ [])
            | some true ↦ (some true, [])
            | some false ↦ (some false, does_not_verify ∷ [])
          ]
      else (none, [])

  abbrev verdict : String → VerifyInput → NormalizedPem → Verification
  verdict pem input n =
      let (verified, signature_reasons) = check_signature pem input in
      let reasons = date_reasons n ++ signature_reasons in
      record {
        valid = no_reasons reasons;
        serial_number = n.serial_number;
        subject_dn = n.subject_dn;
        issuer_dn = n.issuer_dn;
        not_before = n.not_before;
        not_after = n.not_after;
        email = n.email;
        signature_verified = verified;
        identity_assurance = compute_identity_assurance (record {
          certificate_valid = no_reasons reasons;
          cert_identity_match = true;
          account_verified = false;
          mfa_enabled = false;
          revocation_checked = false;
          provider_validation = none;
        });
        reasons = reasons;
      }

  unfoldable pub verify : VerifyInput → Certs → Outcome Verification
  unfolding pem_to_verify check_signature
  verify input s = elim (pem_to_verify input s) [
    | throw e ↦ throw e
    | ok pem ↦ elim (parse_certificate_pem env pem) [
      | throw e ↦ throw e
      | ok n ↦ ok (verdict pem input n)
    ]
  ]

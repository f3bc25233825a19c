-- ===== src/Certificates/Verify/Verdict.antt =====
-- What `verify` of certificates.service.ts says of certificates that are revoked or expired.
use signara.Prelude.{
  ℕ, ◌<◌, ◌≡◌, refl, String, Option, some, inl, inr, ◌==◌, arith, Option-cases, Bool-cases, find,
  find-update_where, update_where,
}
use signara.Exec.{ok, throw, bad_request}
use signara.User.{AuthenticatedUser}
use signara.Certificates.Rows.{SigningCertificate, Certs, CertEnv, ForgeCertificate}
use signara.Certificates.Parse.{parse_certificate_pem, check_validity}
use signara.Certificates.Issue.{find_own_certificate, revoked, revoke}
use signara.Certificates.Verify.{VerifyInput, named_pem, pem_to_verify, verify}

module _ (env : CertEnv) where
  named_pem-revoked :
      (input : VerifyInput) (id : ℕ) (reason : Option String) (s : Certs)
      → named_pem env input (record s {
        certificates = update_where (λ x. x.id == id) (revoked env reason) s.certificates;
      })
        ≡ named_pem env input s
  unfolding named_pem
  named_pem-revoked input id reason s = elim (Option-cases input.certificate_id) [
    | inl unnamed ↦ ground arith
    | inr (n, named) ↦
        let step =
          find-update_where (λ x. x.id == n) (λ x. x.id == id) (revoked env reason) s.certificates
            (λ y. refl) in
        elim (Option-cases (find (λ (x : SigningCertificate). x.id == n) s.certificates)) [
          | inl missing ↦ ground (arith, step)
          | inr (c, found) ↦ elim (Bool-cases (c.id == id)) [
            | inl hit ↦ ground (arith, step)
            | inr missed ↦ ground (arith, step)
          ]
        ]
  ]

  -- A revocation changes no answer of the verification endpoint, whatever is asked: a revoked
  -- certificate is reported as valid exactly if it was before.
  pub verify-revoke :
      (user : AuthenticatedUser) (id : ℕ) (reason : Option String) (input : VerifyInput) (s : Certs)
      → verify env input (revoke env user id reason s).1 ≡ verify env input s
  unfolding verify pem_to_verify revoke
  verify-revoke user id reason input s = elim (Option-cases user.org) [
    | inl nobody ↦ ground arith
    | inr (org, member) ↦ elim (Option-cases (find_own_certificate org.id id s)) [
      | inl missing ↦ ground arith
      | inr (c, found) ↦ ground (arith, named_pem-revoked input id reason s)
    ]
  ]

  -- A certificate that has expired is no reason in the answer: the call is refused, in the words of an
  -- import.
  pub verify_expired :
      (input : VerifyInput) (s : Certs) (pem : String) (c : ForgeCertificate) (from until : ℕ)
      → pem_to_verify env input s ≡ ok pem
      → env.certificate_from_pem pem ≡ some c
      → c.not_before ≡ some from
      → c.not_after ≡ some until
      → until < env.now
      → verify env input s ≡ throw (bad_request "Cannot import an expired certificate")
  unfolding verify parse_certificate_pem check_validity
  verify_expired input s pem c from until asked read starts ends late = ground arith

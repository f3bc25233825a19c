-- ===== src/Certificates/Signing/Accepted.antt =====
-- When `signWithCertificate` of certificates.service.ts gives a signature.
use signara.Prelude.{
  ℕ, ◌≤◌, ◌≡◌, ap, subst, ◌∙◌, sym, String, true, false, Option, some, none, ◌⊎◌, inl, inr, ◌&&◌,
  ◌==◌, arith, Option-cases, Bool-cases, find-holds, find-mem, Memᴰ, truthy, get_or, is_some, ltb,
}
use signara.Exec.{ok, Outcome-cases}
use signara.Text.{Text}
use signara.Crypto.{decrypt_secret}
use signara.Certificates.Evidence.{CertificateRequest, CertificateEvidence}
use signara.Certificates.Rows.{
  SigningCertificate, Certs, CertEnv, cert_active, is_active_certificate,
}
use signara.Certificates.Issue.{find_own_certificate, master_key_of}
use signara.Certificates.Signing.{
  hash_name, matches_signer, check_certificate, check_provided, sign_held, signature_value,
  sign_checked, sign_with_certificate,
}

module _ (env : CertEnv) where
  -- A signature value that verifies under the certificate, or that its stored key has made.
  abbrev pub IsSignatureBy : SigningCertificate → String → String → Type 0
  IsSignatureBy c digest value =
      (key_type : String) × ((env.verify_digest (hash_name key_type) digest c.certificate_pem value
          ≡ some true)
        ⊎ ((enc : Text) × (master : Text) × (key : Text) × (c.private_key_enc ≡ some enc)
            × (decrypt_secret env.cipher enc master ≡ ok key)
            × (env.sign_digest (hash_name key_type) digest key ≡ some value)))

  -- A certificate that may sign for the signer of the request now.
  pub record IsFit (s : Certs) (input : CertificateRequest) (c : SigningCertificate) : Type 0 where
    pub stored : Memᴰ c s.certificates
    pub named : c.id ≡ input.certificate_id
    pub of_tenant : c.organization_id ≡ input.organization_id
    pub is_active : c.status ≡ cert_active
    pub unrevoked : c.revoked_at ≡ none
    pub on_time : env.now ≤ c.not_after
    pub of_signer : matches_signer env c input ≡ true

  -- The checks let a row through as it is.
  check_certificate-passes :
      (input : CertificateRequest) (d c : SigningCertificate)
      → check_certificate env input (some d) ≡ ok c
      → (d ≡ c)
        × (is_active_certificate d.status ≡ true)
        × (is_some d.revoked_at ≡ false)
        × (ltb d.not_after env.now ≡ false)
        × (matches_signer env d input ≡ true)
  unfolding check_certificate
  check_certificate-passes input d c h = ground arith

  active_status :
      (c : SigningCertificate) → is_active_certificate c.status ≡ true → c.status ≡ cert_active
  active_status c h = ground arith

  no_date : (o : Option ℕ) → is_some o ≡ false → o ≡ none
  no_date o h = ground arith

  not_before_now : (a b : ℕ) → ltb a b ≡ false → b ≤ a
  not_before_now a b h = ground arith

  IsFit-own :
      (s : Certs) (input : CertificateRequest) (d : SigningCertificate)
      → find_own_certificate input.organization_id input.certificate_id s ≡ some d
      → check_certificate env input (some d) ≡ ok d
      → IsFit s input d
  IsFit-own s input d found h =
      let key =
        find-holds
          (λ (y : SigningCertificate).
            y.id == input.certificate_id && y.organization_id == input.organization_id)
          s.certificates found in
      let (same, live, unrevoked, on_time, matched) = check_certificate-passes input d d h in
      record {
        stored = find-mem _ s.certificates found;
        named = ground arith;
        of_tenant = ground arith;
        is_active = active_status d live;
        unrevoked = no_date d.revoked_at unrevoked;
        on_time = not_before_now d.not_after env.now on_time;
        of_signer = matched;
      }

  pub check_certificate-ok :
      (s : Certs) (input : CertificateRequest) (c : SigningCertificate)
      → check_certificate env input
          (find_own_certificate input.organization_id input.certificate_id s)
        ≡ ok c
      → IsFit s input c
  unfolding check_certificate
  check_certificate-ok s input c h =
      elim (Option-cases (find_own_certificate input.organization_id input.certificate_id s)) [
        | inl missing ↦ absurd (ground arith)
        | inr (d, found) ↦
            let h' = (rw found at h) in
            let same = (check_certificate-passes input d c h').0 in
            subst (IsFit s input) same (IsFit-own s input d found (h' ∙ ap ok (sym same)))
      ]

  sign_held-ok :
      (enc : Text) (key_type digest : String) {value : String}
      → sign_held env enc key_type digest ≡ ok value
      → (master : Text) × (key : Text) × (decrypt_secret env.cipher enc master ≡ ok key)
        × (env.sign_digest (hash_name key_type) digest key ≡ some value)
  unfolding sign_held
  sign_held-ok enc key_type digest h = elim (Outcome-cases (master_key_of env)) [
    | inr (e, unset) ↦ absurd (ground arith)
    | inl (master, set) ↦ elim (Outcome-cases (decrypt_secret env.cipher enc master)) [
      | inr (e, spoilt) ↦ absurd (ground arith)
      | inl (key, opened) ↦ elim (Option-cases (env.sign_digest (hash_name key_type) digest key)) [
        | inl broken ↦ absurd (ground arith)
        | inr (v, signed) ↦ (master, key, opened, ground arith)
      ]
    ]
  ]

  check_provided-ok :
      (c : SigningCertificate) (key_type digest provided : String) {value : String}
      → check_provided env c key_type digest provided ≡ ok value
      → env.verify_digest (hash_name key_type) digest c.certificate_pem value ≡ some true
  unfolding check_provided
  check_provided-ok c key_type digest provided h =
      elim (Option-cases
        (env.verify_digest (hash_name key_type) digest c.certificate_pem provided)) [
          | inl broken ↦ absurd (ground arith)
          | inr (valid, e) ↦ elim (Bool-cases valid) [
            | inl good ↦ ground arith
            | inr bad ↦ absurd (ground arith)
          ]
        ]

  signature_value-ok :
      (c : SigningCertificate) (key_type : String) (input : CertificateRequest) {value : String}
      → signature_value env c key_type input ≡ ok value
      → IsSignatureBy c input.content_hash value
  unfolding signature_value
  signature_value-ok c key_type input h = elim (Bool-cases (truthy input.provided_signature)) [
    | inl given ↦
        (key_type, inl (check_provided-ok c key_type input.content_hash _ (rw given at h)))
    | inr missing ↦ elim (Option-cases c.private_key_enc) [
      | inl unheld ↦ absurd (ground arith)
      | inr (enc, held) ↦
          let (master, key, opened, signed) =
            sign_held-ok enc key_type input.content_hash (rw (missing, held) at h) in
          (key_type, inr (enc, master, key, held, opened, signed))
    ]
  ]

  pub record IsCertified (s : Certs) (input : CertificateRequest) (e : CertificateEvidence)
      : Type 0 where
    pub certificate : SigningCertificate
    pub fit : IsFit s input certificate
    pub reported : e.certificate_id ≡ certificate.id
    pub serial : e.serial_number ≡ certificate.serial_number
    pub value_by : IsSignatureBy certificate input.content_hash e.signature_value

  sign_checked-ok :
      (s : Certs) (input : CertificateRequest) (c : SigningCertificate) {e : CertificateEvidence}
      → IsFit s input c
      → sign_checked env c input s ≡ ok e
      → IsCertified s input e
  unfolding sign_checked
  sign_checked-ok s input c fit h = elim (Option-cases (env.public_key_type c.certificate_pem)) [
    | inl unread ↦ absurd (ground arith)
    | inr (t, read) ↦ elim (Outcome-cases (signature_value env c (get_or t "rsa") input)) [
      | inr (err, refused) ↦ absurd (ground arith)
      | inl (value, made) ↦
          let by = signature_value-ok c (get_or t "rsa") input made in
          record {
            certificate = c;
            fit = fit;
            reported = ground arith;
            serial = ground arith;
            value_by = subst (IsSignatureBy c input.content_hash) (ground arith) by;
          }
    ]
  ]

  -- A signature is given only by a certificate of the request's tenant and id that is active, was
  -- not revoked, has not expired and is bound to the signer by email or user; its value
  -- verifies under the certificate or was made with its stored key.
  pub sign-IsCertified :
      (s : Certs) (input : CertificateRequest) (e : CertificateEvidence)
      → sign_with_certificate env s input ≡ ok e
      → IsCertified s input e
  unfolding sign_with_certificate
  sign-IsCertified s input e h =
      elim (Outcome-cases (
        check_certificate env input
          (find_own_certificate input.organization_id input.certificate_id s))) [
            | inr (err, refused) ↦ absurd (ground arith)
            | inl (c, passed) ↦
                sign_checked-ok s input c (check_certificate-ok s input c passed) (ground arith)
          ]

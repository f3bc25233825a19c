-- ===== src/Certificates/Issue/Revoked.antt =====
-- What a revocation (`revoke` of certificates.service.ts) means for later signatures, and what
-- issuing the same serial again (`persistIssued`) leaves of it.
use signara.Prelude.{
  ℕ, ◌≡◌, ◌≢◌, refl, ap, ◌∙◌, sym, subst, String, Option, some, none, inl, inr, ◌&&◌, ◌==◌, ==_iff,
  arith, Option-cases, find, Memᴰ, List, update_where, mem-update_where, str_eq,
}
use signara.Exec.{ok, Outcome-cases}
use signara.Text.{Text}
use signara.Crypto.{encrypt_secret}
use signara.User.{AuthenticatedUser}
use signara.Certificates.Evidence.{CertificateRequest, CertificateEvidence}
use signara.Certificates.Rows.{
  SigningCertificate, Certs, CertEnv, NormalizedPem, IssuedCertificate, ProviderKind, cert_active,
}
use signara.Certificates.Issue.{
  find_own_certificate, find_by_serial, encrypt_key, save_certificate, issued_data, persist_issued,
  key_given, master_key_of, revoked, revoke,
}
use signara.Certificates.Signing.{sign_with_certificate}
use signara.Certificates.Signing.Accepted.{sign-IsCertified}

module _ (env : CertEnv) where
  abbrev find_in : ℕ → String → List SigningCertificate → Option SigningCertificate
  find_in organization_id serial_number rows =
      find (λ c. c.organization_id == organization_id && str_eq c.serial_number serial_number) rows

  abbrev RowsRevoked : ℕ → List SigningCertificate → Type 0
  RowsRevoked id rows = (c : SigningCertificate) → Memᴰ c rows → c.id ≡ id → c.revoked_at ≢ none

  -- No row of this id may sign: each has a date of revocation.
  abbrev pub AllRevoked : ℕ → Certs → Type 0
  AllRevoked id s = RowsRevoked id s.certificates

  pub revoked_never_signs :
      (id : ℕ) (s : Certs) (input : CertificateRequest) (e : CertificateEvidence)
      → AllRevoked id s
      → input.certificate_id ≡ id
      → ¬ (sign_with_certificate env s input ≡ ok e)
  revoked_never_signs id s input e all same h =
      let g = sign-IsCertified env s input e h in
      all g.certificate g.fit.stored (g.fit.named ∙ same) g.fit.unrevoked

  abbrev revoke_rows : ℕ → Option String → Certs → Certs
  revoke_rows id reason s = record s {
    certificates = update_where (λ x. x.id == id) (revoked env reason) s.certificates;
  }

  revoke-ok :
      (user : AuthenticatedUser) (id : ℕ) (reason : Option String) (s s' : Certs)
      {c : SigningCertificate}
      → revoke env user id reason s ≡ (ok c, s')
      → s' ≡ revoke_rows id reason s
  unfolding revoke
  revoke-ok user id reason s s' h = elim (Option-cases user.org) [
    | inl nobody ↦ absurd (ground arith)
    | inr (org, member) ↦ elim (Option-cases (find_own_certificate org.id id s)) [
      | inl missing ↦ absurd (ground arith)
      | inr (d, found) ↦ ground arith
    ]
  ]

  revoke_rows-AllRevoked :
      (id : ℕ) (reason : Option String) (s : Certs) → AllRevoked id (revoke_rows id reason s)
  revoke_rows-AllRevoked id reason s c m same none_yet =
      let (y, stored, cases) =
        mem-update_where (λ (x : SigningCertificate). x.id == id) (revoked env reason)
          s.certificates m in
      elim cases [
        | inl (hit, e) ↦ let date = ap (λ z. z.revoked_at) e in cc
        | inr (missed, e) ↦ let same_id = ap (λ z. z.id) e in ground (arith, ==_iff y.id id)
      ]

  -- After a revocation the certificate gives no signature for anybody.
  pub revoke_stops_signing :
      (user : AuthenticatedUser) (id : ℕ) (reason : Option String) (s s' : Certs)
      (c : SigningCertificate) (input : CertificateRequest) (e : CertificateEvidence)
      → revoke env user id reason s ≡ (ok c, s')
      → input.certificate_id ≡ id
      → ¬ (sign_with_certificate env s' input ≡ ok e)
  revoke_stops_signing user id reason s s' c input e h same =
      revoked_never_signs id s' input e
        (subst (AllRevoked id) (sym (revoke-ok user id reason s s' {c = c} h))
          (revoke_rows-AllRevoked id reason s))
        same

  IsKept : (SigningCertificate → SigningCertificate) → Type 0
  IsKept write =
      (y : SigningCertificate) → ((write y).id ≡ y.id) × ((write y).revoked_at ≡ y.revoked_at)

  save_certificate-AllRevoked :
      (write : SigningCertificate → SigningCertificate) (c : SigningCertificate) (s : Certs)
      → IsKept write
      → AllRevoked c.id s
      → AllRevoked c.id (save_certificate env (some c) write s).1
  unfolding save_certificate IsKept
  save_certificate-AllRevoked write c s kept all d m same none_yet =
      let (y, stored, cases) =
        mem-update_where (λ (x : SigningCertificate). x.id == c.id) write s.certificates m in
      elim cases [
        | inl (hit, e) ↦
            let same_id = ap (λ z. z.id) e in
            let date = ap (λ z. z.revoked_at) e in let (k, k') = kept y in all y stored (cc) (cc)
        | inr (missed, e) ↦
            all y stored (sym (ap (λ z. z.id) e) ∙ same) (sym (ap (λ z. z.revoked_at) e) ∙ none_yet)
      ]

  encrypt_key-rows :
      (key : Option Text) (s : Certs) → (encrypt_key env key s).1.certificates ≡ s.certificates
  unfolding encrypt_key
  encrypt_key-rows none s = refl
  encrypt_key-rows (some key) s = elim (Outcome-cases (master_key_of env)) [
    | inr (e, unset) ↦ ground arith
    | inl (master, set) ↦
        elim (Outcome-cases
          (encrypt_secret env.cipher (env.cipher.random_iv s.ivs_drawn) key master)) [
            | inr (e, refused) ↦ ground arith
            | inl (payload, made) ↦ ground arith
          ]
  ]

  issued_data-IsKept :
      (organization_id user_id : ℕ) (provider : ProviderKind) (issued : IssuedCertificate)
      (n : NormalizedPem) (hint : Option String) (key : Option Text)
      → IsKept (issued_data env organization_id user_id provider issued n hint key)
  unfolding issued_data IsKept
  issued_data-IsKept organization_id user_id provider issued n hint key y = (refl, refl)

  module _ (organization_id user_id : ℕ) (provider : ProviderKind) (issued : IssuedCertificate)
      (n : NormalizedPem) (hint : Option String) where
    -- A call of `persistIssued` that returned.
    record IsPersisting (s s' : Certs) (row : SigningCertificate) : Type 0 where
      key : Option Text
      before : Certs
      same_rows : before.certificates ≡ s.certificates
      saved :
          (ok row, s')
          ≡ save_certificate env
              (find_by_serial organization_id n.serial_number before)
              (issued_data env organization_id user_id provider issued n hint key)
              before

    persist_issued-ok :
        (s s' : Certs) {row : SigningCertificate}
        → persist_issued env organization_id user_id provider issued n hint s ≡ (ok row, s')
        → IsPersisting s s' row
    unfolding persist_issued
    persist_issued-ok s s' h =
        elim (Outcome-cases (encrypt_key env (key_given issued.private_key_pem) s).0) [
          | inr (e, refused) ↦ absurd (ground arith)
          | inl (key, drawn) ↦ record {
            key = key;
            before = (encrypt_key env (key_given issued.private_key_pem) s).1;
            same_rows = encrypt_key-rows (key_given issued.private_key_pem) s;
            saved = ground arith;
          }
        ]

    -- Issuing a serial again on a revoked certificate marks the row as active and leaves the date and
    -- the reason of its revocation as they were: it signs for nobody.
    pub persist_issued_unusable :
        (s s' : Certs) (c row : SigningCertificate) (input : CertificateRequest)
        (e : CertificateEvidence)
        → persist_issued env organization_id user_id provider issued n hint s ≡ (ok row, s')
        → find_by_serial organization_id n.serial_number s ≡ some c
        → AllRevoked c.id s
        → input.certificate_id ≡ row.id
        → (row.status ≡ cert_active)
          × (row.revoked_at ≡ c.revoked_at)
          × (row.revoked_reason ≡ c.revoked_reason)
          × ¬ (sign_with_certificate env s' input ≡ ok e)
    unfolding save_certificate issued_data
    persist_issued_unusable s s' c row input e h found all same =
        let p = persist_issued-ok s s' {row = row} h in
        let write = issued_data env organization_id user_id provider issued n hint p.key in
        let found' : find_by_serial organization_id n.serial_number p.before ≡ some c =
          ap (find_in organization_id n.serial_number) p.same_rows ∙ found in
        let saved = p.saved ∙ ap (λ o. save_certificate env o write p.before) found' in
        let row_eq : row ≡ write c = (let r = ap (λ x. x.0) saved in cc) in
        let all' : AllRevoked c.id s' = subst (AllRevoked c.id) (sym (ap (λ x. x.1) saved)) (
          save_certificate-AllRevoked write c p.before
            (issued_data-IsKept organization_id user_id provider issued n hint p.key)
            (subst (RowsRevoked c.id) (sym p.same_rows) all)) in
        (
          ap (λ r. r.status) row_eq,
          ap (λ r. r.revoked_at) row_eq,
          ap (λ r. r.revoked_reason) row_eq,
          revoked_never_signs c.id s' input e all' (same ∙ ap (λ r. r.id) row_eq),
        )

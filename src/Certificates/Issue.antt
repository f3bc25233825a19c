-- ===== src/Certificates/Issue.antt =====
-- The table of certificates (`get`, `importCertificate`, `provision`, `persistIssued` and `revoke` of
-- certificates.service.ts).
pub mod Revoked
use text.Mathlib.Text.{find?}
use signara.Prelude.{
  ℕ, ◌+◌, String, Bool, true, false, not, ◌&&◌, ◌==◌, str_eq, Option, none, some, List, [], ◌∷◌,
  ◌++◌, if◌then◌else◌, get_or, or_else, map_some, is_some, find, update_where,
}
use signara.Exec.{
  Exec, Outcome, ok, throw, bad_request, not_found, internal, pure, lift, gets, modify, throw_if,
  require, ◌>>=◌, ◌>>◌,
}
use signara.Text.{Text, is_blank_text}
use signara.Crypto.{encrypt_secret}
use signara.User.{AuthenticatedUser}
use signara.Accounts.{caller_org}
use signara.Certificates.Rows.{
  SigningCertificate, Certs, CertEnv, NormalizedPem, IssuedCertificate, ProvisionInput,
  CertificateProvider, ProviderKind, cert_active, cert_revoked, cerulean, acme, internal_pki, web,
}
use signara.Certificates.Parse.{has_text, cn_from_subject, parse_certificate_pem}

pub record ImportInput : Type 0 where
  pub certificate_pem : String
  pub chain_pem : Option String
  pub private_key_pem : Option Text
  pub provider : Option ProviderKind
  pub validation_level : Option String
  pub common_name : Option String

-- `findFirst({ where: { id, organizationId } })`
abbrev pub find_own_certificate : ℕ → ℕ → Certs → Option SigningCertificate
find_own_certificate organization_id id s =
    find (λ c. c.id == id && c.organization_id == organization_id) s.certificates

-- `findUnique({ where: { organizationId_serialNumber } })`
abbrev pub find_by_serial : ℕ → String → Certs → Option SigningCertificate
find_by_serial organization_id serial_number s =
    find (λ c. c.organization_id == organization_id && str_eq c.serial_number serial_number)
      s.certificates

-- A row before its columns are written.
abbrev pub blank_certificate : ℕ → SigningCertificate
blank_certificate id = record {
  id = id;
  organization_id = 0;
  user_id = none;
  provider = internal_pki;
  status = cert_active;
  common_name = "";
  email = none;
  serial_number = "";
  subject_dn = "";
  issuer_dn = none;
  not_before = 0;
  not_after = 0;
  certificate_pem = "";
  chain_pem = none;
  private_key_enc = none;
  key_algorithm = none;
  validation_level = none;
  source_ref = none;
  created_by = none;
  revoked_at = none;
  revoked_reason = none;
}

-- `sanitize`: the stored key does not leave the service.
abbrev pub sanitize : SigningCertificate → SigningCertificate
sanitize c = record c { private_key_enc = none }

-- `if (s)` on an optional key
abbrev key_given : Option Text → Option Text
key_given none = none
key_given (some k) = if is_blank_text k then none else some k

-- `provider.kind`
abbrev kind_name : ProviderKind → String
kind_name cerulean = "CERULEAN"
kind_name acme = "ACME"
kind_name internal_pki = "INTERNAL_PKI"
kind_name web = "WEB"

module _ (env : CertEnv) where
  -- `masterKey()`
  abbrev pub master_key_of : Outcome Text
  master_key_of = elim (key_given env.master_key) [
    | none ↦
        throw (internal "CRYPTO_MASTER_KEY is not configured — required for private key material")
    | some k ↦ ok k
  ]

  -- `encryptSecret(key, this.masterKey())` for a key that is given; it draws a nonce.
  unfoldable pub encrypt_key : Option Text → Exec Certs (Option Text)
  encrypt_key none s = (ok none, s)
  encrypt_key (some key) s = elim master_key_of [
    | throw e ↦ (throw e, s)
    | ok master ↦ elim (encrypt_secret env.cipher (env.cipher.random_iv s.ivs_drawn) key master) [
      | throw e ↦ (throw e, s)
      | ok payload ↦ (ok (some payload), record s { ivs_drawn = s.ivs_drawn + 1 })
    ]
  ]

  unfoldable pub private_key_matches : Text → String → Bool
  private_key_matches private_key_pem certificate_pem =
      elim (env.sign_digest "sha256" env.nonce private_key_pem) [
        | none ↦ false
        | some signature ↦
            get_or (env.verify_digest "sha256" env.nonce certificate_pem signature) false
      ]

  -- `assertPrivateKeyMatches`, for a key that is given
  unfoldable pub assert_key_matches : Option Text → String → Exec Certs (Unit {0})
  unfolding private_key_matches
  assert_key_matches none certificate_pem s = (ok tt, s)
  assert_key_matches (some key) certificate_pem s =
      throw_if (not (private_key_matches key certificate_pem))
        (bad_request "Private key does not match the certificate public key") s

  -- `existing ? update(existing.id, data) : create(data)`, where `data` writes its columns
  unfoldable pub save_certificate :
      Option SigningCertificate
      → (SigningCertificate → SigningCertificate)
      → Exec Certs SigningCertificate
  save_certificate (some c) write s = (
    ok (write c),
    record s { certificates = update_where (λ x. x.id == c.id) write s.certificates },
  )
  save_certificate none write s = (
    ok (write (blank_certificate (env.uuid s.ids_drawn))),
    record s {
      certificates = s.certificates ++ write (blank_certificate (env.uuid s.ids_drawn)) ∷ [];
      ids_drawn = s.ids_drawn + 1;
    },
  )

  -- The columns that an import writes; a missing chain is left as it is.
  unfoldable pub import_data :
      ℕ → ℕ → ImportInput → NormalizedPem → Option Text → SigningCertificate → SigningCertificate
  import_data organization_id user_id input n key c = record c {
    organization_id = organization_id;
    user_id = some user_id;
    provider = get_or input.provider internal_pki;
    status = cert_active;
    common_name =
        get_or (or_else input.common_name (cn_from_subject n.subject_dn))
          (env.first_24 input.certificate_pem);
    email = n.email;
    serial_number = n.serial_number;
    subject_dn = n.subject_dn;
    issuer_dn = some n.issuer_dn;
    not_before = n.not_before;
    not_after = n.not_after;
    certificate_pem = input.certificate_pem;
    chain_pem = or_else input.chain_pem c.chain_pem;
    private_key_enc = key;
    key_algorithm = some (if has_text "BEGIN EC" input.certificate_pem then "ECDSA" else "RSA");
    validation_level = some (get_or input.validation_level "OV");
    created_by = some user_id;
    revoked_at = none;
    revoked_reason = none;
  }

  unfoldable pub import_certificate :
      AuthenticatedUser → ImportInput → Exec Certs SigningCertificate
  import_certificate user input = do
    org ← caller_org user
    n ← lift (parse_certificate_pem env input.certificate_pem)
    assert_key_matches (key_given input.private_key_pem) input.certificate_pem
    key ← encrypt_key (key_given input.private_key_pem)
    existing ← gets (find_by_serial org.id n.serial_number)
    row ← save_certificate existing (import_data org.id user.id input n key)
    pure (sanitize row)

  -- The columns that an issued certificate writes: `undefined` leaves a column as it is, and the
  -- columns of a revocation are not named.
  unfoldable pub issued_data :
      ℕ
      → ℕ
      → ProviderKind
      → IssuedCertificate
      → NormalizedPem
      → Option String
      → Option Text
      → SigningCertificate
      → SigningCertificate
  issued_data organization_id user_id provider issued n email_hint key c = record c {
    organization_id = organization_id;
    user_id = some user_id;
    provider = provider;
    status = cert_active;
    common_name =
        get_or (or_else (or_else n.email (cn_from_subject n.subject_dn)) email_hint) "signer";
    email = or_else (or_else n.email email_hint) c.email;
    serial_number = n.serial_number;
    subject_dn = n.subject_dn;
    issuer_dn = some n.issuer_dn;
    not_before = n.not_before;
    not_after = n.not_after;
    certificate_pem = issued.certificate_pem;
    chain_pem = or_else issued.chain_pem c.chain_pem;
    private_key_enc = or_else key c.private_key_enc;
    key_algorithm = some (get_or issued.key_algorithm (if is_some n.email then "RSA" else "ECDSA"));
    validation_level = some (get_or issued.validation_level "OV");
    source_ref = or_else issued.source_ref c.source_ref;
    created_by = some user_id;
  }

  unfoldable pub persist_issued :
      ℕ
      → ℕ
      → ProviderKind
      → IssuedCertificate
      → NormalizedPem
      → Option String
      → Exec Certs SigningCertificate
  persist_issued organization_id user_id provider issued n email_hint = do
    key ← encrypt_key (key_given issued.private_key_pem)
    existing ← gets (find_by_serial organization_id n.serial_number)
    save_certificate existing (issued_data organization_id user_id provider issued n email_hint key)

  -- `registry.get(kind)`
  abbrev find_provider : String → Option CertificateProvider
  find_provider kind = find (λ p. str_eq (kind_name p.kind) kind) env.providers

  unfoldable pub provision : AuthenticatedUser → ProvisionInput → Exec Certs SigningCertificate
  unfolding persist_issued
  provision user input = do
    org ← caller_org user
    provider ← λ s.
        require (find_provider (env.upper input.provider)) (internal "Unknown certificate provider")
          s
    throw_if (not provider.is_configured)
        (bad_request "Certificate provider is not configured for this deployment")
    issued ← lift (provider.provision org.id input)
    n ← lift (parse_certificate_pem env issued.certificate_pem)
    row ← persist_issued org.id user.id provider.kind issued n input.email
    pure (sanitize row)

  abbrev pub revoked : Option String → SigningCertificate → SigningCertificate
  revoked reason c = record c {
    status = cert_revoked;
    revoked_at = some env.now;
    revoked_reason = or_else reason c.revoked_reason;
  }

  unfoldable pub revoke : AuthenticatedUser → ℕ → Option String → Exec Certs SigningCertificate
  revoke user id reason = do
    org ← caller_org user
    c ← λ s. require (find_own_certificate org.id id s) (not_found "Certificate not found") s
    modify (λ s. record s {
      certificates = update_where (λ x. x.id == id) (revoked reason) s.certificates;
    })
    pure (sanitize (revoked reason c))

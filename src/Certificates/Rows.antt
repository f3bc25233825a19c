-- ===== src/Certificates/Rows.antt =====
-- The table of signing certificates and what certificates.service.ts takes from outside: the
-- certificate parser, the signature algorithms, the master key and the providers.
use signara.Prelude.{ℕ, String, Bool, true, false, Option, List}
use signara.Exec.{Outcome}
use signara.Text.{Text}
use signara.Crypto.{Cipher}
use signara.Accounts.{User}

pub data CertificateStatus : Type 0 where
  cert_active cert_revoked cert_expired : CertificateStatus

pub data ProviderKind : Type 0 where
  cerulean acme internal_pki web : ProviderKind

abbrev pub is_active_certificate : CertificateStatus → Bool
is_active_certificate cert_active = true
is_active_certificate _ = false

pub record SigningCertificate : Type 0 where
  pub id : ℕ
  pub organization_id : ℕ
  pub user_id : Option ℕ
  pub provider : ProviderKind
  pub status : CertificateStatus
  pub common_name : String
  pub email : Option String
  pub serial_number : String
  pub subject_dn : String
  pub issuer_dn : Option String
  pub not_before : ℕ
  pub not_after : ℕ
  pub certificate_pem : String
  pub chain_pem : Option String
  pub private_key_enc : Option Text
  pub key_algorithm : Option String
  pub validation_level : Option String
  pub source_ref : Option String
  pub created_by : Option ℕ
  pub revoked_at : Option ℕ
  pub revoked_reason : Option String

-- The state that the service reads and writes: its table, the accounts for their second factor, and
-- how many ids and nonces have been drawn.
pub record Certs : Type 0 where
  pub certificates : List SigningCertificate
  pub users : List User
  pub ids_drawn : ℕ
  pub ivs_drawn : ℕ

-- What `forge.pki.certificateFromPem` gives, as far as the service reads it. A date that does not
-- parse is `none`.
pub record DnAttribute : Type 0 where
  pub name : Option String
  pub type : String
  pub value : String

pub record AltName : Type 0 where
  pub type : Option ℕ
  pub value : Option String

pub record ForgeCertificate : Type 0 where
  pub serial_number : Option String
  pub subject : List DnAttribute
  pub issuer : List DnAttribute
  -- the alternative names of the first extension called `subjectAltName`, if it has any
  pub alt_names : Option (List AltName)
  pub not_before : Option ℕ
  pub not_after : Option ℕ

pub record NormalizedPem : Type 0 where
  pub serial_number : String
  pub subject_dn : String
  pub issuer_dn : String
  pub not_before : ℕ
  pub not_after : ℕ
  pub email : Option String

pub record IssuedCertificate : Type 0 where
  pub certificate_pem : String
  pub chain_pem : Option String
  pub private_key_pem : Option Text
  pub key_algorithm : Option String
  pub validation_level : Option String
  pub source_ref : Option String

pub record ProvisionInput : Type 0 where
  pub provider : String
  pub common_name : String
  pub email : Option String

-- A provider as the registry holds it; `provision` may throw.
pub record CertificateProvider : Type 0 where
  pub kind : ProviderKind
  pub is_configured : Bool
  pub provision : ℕ → ProvisionInput → Outcome IssuedCertificate

pub record CertEnv : Type 0 where
  pub now : ℕ
  pub uuid : ℕ → ℕ
  pub lower : String → String
  pub upper : String → String
  -- `s.slice(0, 24)`
  pub first_24 : String → String
  pub cipher : Cipher
  -- `config.get('auth.cryptoMasterKey')`
  pub master_key : Option Text
  pub certificate_from_pem : String → Option ForgeCertificate
  -- `createPublicKey(pem).asymmetricKeyType`; the outer `none` where it throws
  pub public_key_type : String → Option (Option String)
  -- `nodeVerify(hash, digest, createPublicKey(pem), signature)`, the digest in hex and the signature
  -- in base64; `none` where it throws
  pub verify_digest : String → String → String → String → Option Bool
  -- `nodeSign(hash, digest, createPrivateKey(pem)).toString('base64')`; `none` where it throws
  pub sign_digest : String → String → Text → Option String
  -- the SHA-256 of `${Date.now()}:signara`, in hex
  pub nonce : String
  pub providers : List CertificateProvider

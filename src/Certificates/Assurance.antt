-- ===== src/Certificates/Assurance.antt =====
-- The identity assurance score of a signature
-- (apps/api/src/modules/certificates/identity-assurance.ts).
pub mod Bounds
use signara.Prelude.{ℕ, ◌+◌, Bool, true, false, ◌&&◌, Option, none, some, if◌then◌else◌, leb}

pub data AssuranceLevel : Type 0 where
  no_assurance basic advanced high : AssuranceLevel

pub data ProviderValidation : Type 0 where
  dv ov ev : ProviderValidation

pub record AssuranceFactors : Type 0 where
  pub certificate_valid : Bool
  pub cert_identity_match : Bool
  pub account_verified : Bool
  pub mfa_enabled : Bool
  pub revocation_checked : Bool
  pub provider_validation : Option ProviderValidation

pub record IdentityAssurance : Type 0 where
  pub score : ℕ
  pub level : AssuranceLevel
  pub factors : AssuranceFactors

-- The JSON of an assurance in the signature and in the trail: that of a certificate is handed on
-- without its factors.
pub record StoredAssurance : Type 0 where
  pub score : ℕ
  pub level : AssuranceLevel
  pub factors : Option AssuranceFactors

abbrev pub handed_on : IdentityAssurance → StoredAssurance
handed_on a = record { score = a.score; level = a.level; factors = none }

abbrev pub in_full : IdentityAssurance → StoredAssurance
in_full a = record { score = a.score; level = a.level; factors = some a.factors }

abbrev pub provider_validation_weight : Option ProviderValidation → ℕ
provider_validation_weight none = 0
provider_validation_weight (some dv) = 5
provider_validation_weight (some ov) = 10
provider_validation_weight (some ev) = 20

-- `if (b) score += n;`
abbrev add_if : Bool → ℕ → ℕ → ℕ
add_if b n score = if b then score + n else score

raw_score : AssuranceFactors → ℕ
raw_score f =
    let s1 = add_if f.certificate_valid 30 0 in
    let s2 = add_if f.cert_identity_match 20 s1 in
    let s3 = add_if f.account_verified 15 s2 in
    let s4 = add_if f.mfa_enabled 15 s3 in
    let s5 = add_if f.revocation_checked 10 s4 in
    add_if f.certificate_valid (provider_validation_weight f.provider_validation) s5

level_of : ℕ → AssuranceLevel
level_of clamped =
    if leb 80 clamped
    then high
    else if leb 50 clamped
    then advanced
    else if leb 25 clamped
    then basic
    else no_assurance

unfoldable pub compute_identity_assurance : AssuranceFactors → IdentityAssurance
unfolding raw_score level_of
compute_identity_assurance f =
    let score = raw_score f in
    let clamped = (if leb score 100 then score else 100) in
    record { score = clamped; level = level_of clamped; factors = f }

unfoldable pub unsigned_assurance : Bool → Bool → IdentityAssurance
unfolding compute_identity_assurance
unsigned_assurance mfa_enabled account_verified = compute_identity_assurance (record {
  certificate_valid = false;
  cert_identity_match = false;
  account_verified = account_verified;
  mfa_enabled = mfa_enabled;
  revocation_checked = false;
  provider_validation = none;
})

-- ===== src/Examples/Cards.antt =====
-- Certificates of the small deployment: a certificate of bob's, his signature with it, its revocation,
-- and the theorems there.
use signara.Prelude.{
  ℕ, ◌≡◌, refl, ap, true, ltb, none, some, [], ◌∷◌, ◌+◌, ◌-◌, map, if◌then◌else◌, Memᴰ, arith,
  sort_by,
}
use signara.Exec.{ok}
use signara.Text.{Text, colon, IsFree}
use signara.Crypto.{Bytes, Cipher, encrypt_secret, decrypt_secret}
use signara.Crypto.Roundtrip.{IsCipher, decrypt-encrypt}
use signara.User.{AuthenticatedUser, user}
use signara.Certificates.Evidence.{CertificateRequest, CertificateEvidence}
use signara.Certificates.Rows.{
  SigningCertificate, Certs, CertEnv, ForgeCertificate, NormalizedPem, IssuedCertificate,
  cert_active, cert_revoked, internal_pki,
}
use signara.Certificates.Issue.{
  sanitize, revoked, revoke, persist_issued, encrypt_key, save_certificate, issued_data,
}
use signara.Certificates.Issue.Revoked.{AllRevoked, revoke_stops_signing, persist_issued_unusable}
use signara.Certificates.Assurance.{StoredAssurance, advanced, compute_identity_assurance}
use signara.Certificates.Signing.{
  sign_with_certificate, check_certificate, sign_checked, signature_value, matches_signer,
}
use signara.Certificates.Verify.{VerifyInput, verify}
use signara.Certificates.Verify.Verdict.{verify-revoke}
use signara.Db.{Db, Signature, certificate}
use signara.Signatures.Turn.{can_signer_act}
use signara.Signatures.Access.{find_session}
use signara.Signatures.Fields.{resolve_field_values, check_values, submitted_entry}
use signara.Signatures.Sign.{
  SignInput, sign, sign_session, sign_guards, certificate_evidence, hash_differs,
}
use signara.Signatures.Sign.Certified.{certify, IsBacked, sign-IsBacked}
use signara.Signatures.Sign.Evidence.{IsRecorded}
use signara.Examples.{env, db, browser, bobs_input}
use signara.Examples.Signing.{bobs_session, bobs_session_found}

-- An encoding without colons: the numbers from 58 on are moved up by one.
shift : ℕ → ℕ
shift n = if ltb n 58 then n else n + 1

unshift : ℕ → ℕ
unshift n = if ltb n 58 then n else n - 1

unshift-shift : (n : ℕ) → unshift (shift n) ≡ n
unfolding shift unshift
unshift-shift n = ground arith

map-unshift : (b : Bytes) → map unshift (map shift b) ≡ b
map-unshift [] = refl
map-unshift (n ∷ b) = cc (unshift-shift n, map-unshift b)

shift-IsFree : (b : Bytes) → IsFree colon (map shift b)
unfolding shift
shift-IsFree [] = refl
shift-IsFree (n ∷ b) = ground (arith, shift-IsFree b)

abbrev cipher : Cipher
cipher = record {
  sha256 = λ s. s;
  seal = λ key iv p. record { data_of = p; tag_of = key };
  unseal = λ key iv s. some s.data_of;
  base64url = map shift;
  from_base64url = map unshift;
  random_iv = λ n. n ∷ [];
}

cipher-IsCipher : IsCipher cipher
cipher-IsCipher = record {
  no_colon = shift-IsFree;
  decodes = map-unshift;
  opens = λ key iv p. refl;
}

decrypt-encrypt_example :
    (payload : Text) × (encrypt_secret cipher (7 ∷ []) (1 ∷ 58 ∷ []) (9 ∷ []) ≡ ok payload)
    × (decrypt_secret cipher payload (9 ∷ []) ≡ ok (1 ∷ 58 ∷ []))
decrypt-encrypt_example =
    decrypt-encrypt cipher cipher-IsCipher (7 ∷ []) (1 ∷ 58 ∷ []) (9 ∷ []) refl

abbrev parsed_card : ForgeCertificate
parsed_card = record {
  serial_number = some "S1";
  subject = [];
  issuer = [];
  alt_names = none;
  not_before = some 0;
  not_after = some 5000;
}

abbrev card_env : CertEnv
card_env = record {
  now = 1000;
  uuid = λ n. n + 100;
  lower = λ s. s;
  upper = λ s. s;
  first_24 = λ s. s;
  cipher = cipher;
  master_key = some (9 ∷ []);
  certificate_from_pem = λ pem. some parsed_card;
  public_key_type = λ pem. some none;
  verify_digest = λ hash digest pem value. some true;
  sign_digest = λ hash digest key. some "value";
  nonce = "nonce";
  providers = [];
}

abbrev card : SigningCertificate
card = record {
  id = 30;
  organization_id = 7;
  user_id = none;
  provider = internal_pki;
  status = cert_active;
  common_name = "Bob";
  email = some "bob@example.com";
  serial_number = "S1";
  subject_dn = "";
  issuer_dn = none;
  not_before = 0;
  not_after = 5000;
  certificate_pem = "pem";
  chain_pem = none;
  private_key_enc = none;
  key_algorithm = none;
  validation_level = some "OV";
  source_ref = none;
  created_by = none;
  revoked_at = none;
  revoked_reason = none;
}

abbrev certs : Certs
certs = record { certificates = card ∷ []; users = []; ids_drawn = 0; ivs_drawn = 0 }

abbrev card_input : SignInput
card_input = record bobs_input {
  type = some certificate;
  certificate_id = some 30;
  signature_value = some "value";
}

abbrev after_card : Db
after_card = (sign env (certify env card_env certs) "bob" card_input browser db).1

abbrev card_assurance : StoredAssurance
card_assurance = record { score = 60; level = advanced; factors = none }

bob_signs_with_card :
    sign env (certify env card_env certs) "bob" card_input browser db
    ≡ (ok (record { signature_id = 100; identity_assurance = some card_assurance }), after_card)
unfolding sign sign_session sign_guards can_signer_act certificate_evidence resolve_field_values
    check_values submitted_entry hash_differs find_session sort_by sign_with_certificate
    check_certificate sign_checked signature_value compute_identity_assurance matches_signer
bob_signs_with_card = refl

sign-IsBacked_example :
    (row : Signature) × IsRecorded env
      (certify env card_env certs)
      "bob"
      card_input
      browser
      bobs_session
      db
      row
      after_card
    × IsBacked env card_env certs card_input bobs_session row
sign-IsBacked_example =
    sign-IsBacked env card_env certs "bob" card_input browser bobs_session db after_card
      bobs_session_found refl bob_signs_with_card

abbrev pub boss : AuthenticatedUser
boss = record {
  id = 1;
  email = "boss@example.com";
  display_name = none;
  platform_role = user;
  org = some (record { id = 7; role = "OWNER"; permissions = [] });
}

abbrev revoked_certs : Certs
revoked_certs = (revoke card_env boss 30 none certs).1

boss_revokes :
    revoke card_env boss 30 none certs ≡ (ok (sanitize (revoked card_env none card)), revoked_certs)
unfolding revoke
boss_revokes = refl

abbrev card_request : CertificateRequest
card_request = record {
  organization_id = 7;
  certificate_id = 30;
  signer_user_id = none;
  signer_email = "bob@example.com";
  content_hash = "hash";
  provided_signature = some "value";
}

abbrev card_evidence : CertificateEvidence
card_evidence = record {
  certificate_id = 30;
  serial_number = "S1";
  signature_value = "value";
  signature_format = "RSA-SHA256";
  crypto_algorithm = "sha256 (detached — signed over content digest)";
  identity_assurance = card_assurance;
}

revoke_stops_signing_example :
    ¬ (sign_with_certificate card_env revoked_certs card_request ≡ ok card_evidence)
revoke_stops_signing_example =
    revoke_stops_signing card_env boss 30 none certs revoked_certs
      (sanitize (revoked card_env none card)) card_request card_evidence boss_revokes refl

abbrev issued_card : IssuedCertificate
issued_card = record {
  certificate_pem = "pem2";
  chain_pem = none;
  private_key_pem = none;
  key_algorithm = none;
  validation_level = none;
  source_ref = none;
}

abbrev issued_pem : NormalizedPem
issued_pem = record {
  serial_number = "S1";
  subject_dn = "";
  issuer_dn = "";
  not_before = 0;
  not_after = 9000;
  email = some "bob@example.com";
}

abbrev revoked_card : SigningCertificate
revoked_card = record card { status = cert_revoked; revoked_at = some 900 }

abbrev old_certs : Certs
old_certs = record certs { certificates = revoked_card ∷ [] }

old_card-AllRevoked : AllRevoked card_env 30 old_certs
old_card-AllRevoked c (Memᴰ.head e) same gone = let date = ap (λ y. y.revoked_at) e in cc
old_card-AllRevoked c (Memᴰ.tail m) same gone = elim m [ ]

abbrev reissued_certs : Certs
reissued_certs = (persist_issued card_env 7 1 internal_pki issued_card issued_pem none old_certs).1

abbrev reissued_card : SigningCertificate
reissued_card = issued_data card_env 7 1 internal_pki issued_card issued_pem none none revoked_card

card_reissued :
    persist_issued card_env 7 1 internal_pki issued_card issued_pem none old_certs
    ≡ (ok reissued_card, reissued_certs)
unfolding persist_issued encrypt_key save_certificate issued_data
card_reissued = refl

persist_issued_unusable_example :
    (reissued_card.status ≡ cert_active)
    × (reissued_card.revoked_at ≡ revoked_card.revoked_at)
    × (reissued_card.revoked_reason ≡ revoked_card.revoked_reason)
    × ¬ (sign_with_certificate card_env reissued_certs card_request ≡ ok card_evidence)
unfolding issued_data
persist_issued_unusable_example =
    persist_issued_unusable card_env 7 1 internal_pki issued_card issued_pem none old_certs
      reissued_certs revoked_card reissued_card card_request card_evidence card_reissued refl
      old_card-AllRevoked refl

abbrev card_question : VerifyInput
card_question = record {
  certificate_pem = none;
  certificate_id = some 30;
  signature_value = none;
  signed_hash = none;
}

verify-revoke_example :
    verify card_env card_question (revoke card_env boss 30 none certs).1
    ≡ verify card_env card_question certs
verify-revoke_example = verify-revoke card_env boss 30 none card_question certs

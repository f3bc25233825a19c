-- ===== src/Certificates/Listing.antt =====
-- Reading the certificates of a tenant (`list`, `get` and `providerStatus` of
-- certificates.service.ts).
use signara.Prelude.{
  ℕ, Bool, true, false, ◌&&◌, ◌==◌, Option, none, List, [], ◌∷◌, if◌then◌else◌, get_or, map_some,
  select, length, map, reverse, leb, suc, zero,
}
use signara.Exec.{Exec, forbidden, not_found, pure, gets, require, ◌>>=◌}
use signara.User.{AuthenticatedUser}
use signara.Accounts.{caller_org}
use signara.Certificates.Rows.{
  CertificateStatus, SigningCertificate, Certs, CertEnv, ProviderKind, cert_active, cert_revoked,
  cert_expired,
}
use signara.Certificates.Issue.{find_own_certificate}

pub record CertificateQuery : Type 0 where
  pub status : Option CertificateStatus
  pub limit : Option ℕ
  pub offset : Option ℕ

pub record CertificatePage : Type 0 where
  pub total : ℕ
  pub items : List SigningCertificate

abbrev same_status : CertificateStatus → CertificateStatus → Bool
same_status cert_active cert_active = true
same_status cert_revoked cert_revoked = true
same_status cert_expired cert_expired = true
same_status _ _ = false

-- `CERT_SELECT` leaves out the chain, the stored key and who created the row.
abbrev selected : SigningCertificate → SigningCertificate
selected c = record c { chain_pem = none; private_key_enc = none; created_by = none }

abbrev first_rows : ℕ → List SigningCertificate → List SigningCertificate
first_rows zero rows = []
first_rows (suc n) [] = []
first_rows (suc n) (r ∷ rows) = r ∷ first_rows n rows

abbrev after_rows : ℕ → List SigningCertificate → List SigningCertificate
after_rows zero rows = rows
after_rows (suc n) [] = []
after_rows (suc n) (r ∷ rows) = after_rows n rows

-- `Math.min(n, 100)`
abbrev at_most_100 : ℕ → ℕ
at_most_100 n = if leb n 100 then n else 100

abbrev is_asked : ℕ → CertificateQuery → SigningCertificate → Bool
is_asked organization_id query c =
    c.organization_id == organization_id
    && get_or (map_some (same_status c.status) query.status) true

-- A page of the tenant's certificates, the newest first.
unfoldable pub page : ℕ → CertificateQuery → Certs → CertificatePage
page organization_id query s =
    let rows = select (is_asked organization_id query) s.certificates in
    record {
      total = length rows;
      items = map selected (
          first_rows (at_most_100 (get_or query.limit 25))
            (after_rows (get_or query.offset 0) (reverse rows)));
    }

unfoldable pub list : AuthenticatedUser → CertificateQuery → Exec Certs CertificatePage
unfolding page
list user query = do org ← require user.org (forbidden "No active tenant"); gets (page org.id query)

unfoldable pub get : AuthenticatedUser → ℕ → Exec Certs SigningCertificate
get user id = do
  org ← caller_org user
  c ← λ s. require (find_own_certificate org.id id s) (not_found "Certificate not found") s
  pure (selected c)

-- `registry.status()`
unfoldable pub provider_status : CertEnv → List (ProviderKind × Bool)
provider_status env = map (λ p. (p.kind, p.is_configured)) env.providers

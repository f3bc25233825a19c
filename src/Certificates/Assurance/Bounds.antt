-- ===== src/Certificates/Assurance/Bounds.antt =====
-- The score and the level of `computeIdentityAssurance`, and what an unsigned act can reach.
use signara.Prelude.{ℕ, ◌≤◌, ◌≡◌, ◌↔◌, arith, Bool, true, false}
use signara.Certificates.Assurance.{
  AssuranceFactors, basic, high, level_of, raw_score, compute_identity_assurance,
  unsigned_assurance,
}

level_high : (n : ℕ) → (level_of n ≡ high) ↔ (80 ≤ n)
unfolding level_of
level_high n = (λ h. ground arith, λ h. ground arith)

-- The score is at most 100, and the level is high exactly from 80 on, which no act reaches without
-- a valid certificate.
pub assurance_high :
    (f : AssuranceFactors)
    → ((compute_identity_assurance f).score ≤ 100)
      × (((compute_identity_assurance f).level ≡ high)
          ↔ (80 ≤ (compute_identity_assurance f).score))
      × ((compute_identity_assurance f).level ≡ high → f.certificate_valid ≡ true)
unfolding compute_identity_assurance raw_score level_of
assurance_high f = (ground arith, level_high _, λ h. ground arith)

-- The assurance of an act without a certificate is at most 30 points, and its level basic, which
-- takes both the second factor and the verified account.
pub unsigned_basic :
    (mfa verified : Bool)
    → ((unsigned_assurance mfa verified).score ≤ 30)
      × (((unsigned_assurance mfa verified).level ≡ basic) ↔ ((mfa ≡ true) × (verified ≡ true)))
unfolding unsigned_assurance compute_identity_assurance raw_score level_of
unsigned_basic true true = (omega arith, (λ h. (cc, cc), λ h. cc))
unsigned_basic true false = (omega arith, (λ h. cc, λ h. cc))
unsigned_basic false true = (omega arith, (λ h. cc, λ h. cc))
unsigned_basic false false = (omega arith, (λ h. cc, λ h. cc))

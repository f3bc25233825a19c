-- ===== src/Webhooks/Hosts/Ranges.antt =====
-- The ranges of IPv4 addresses that `isPrivateHost` of webhooks.service.ts knows.
use signara.Prelude.{ℕ, ◌≡◌, ◌≤◌, ◌↔◌, ◌⊎◌, true, arith}
use signara.Webhooks.Hosts.{is_private_octets}

-- 0.0.0.0/8, 10.0.0.0/8, 127.0.0.0/8, 100.64.0.0/10, 169.254.0.0/16, 172.16.0.0/12, 192.168.0.0/16,
-- by the first two octets.
abbrev pub IsReserved : ℕ → ℕ → Type 0
IsReserved a b =
    (a ≡ 0)
    ⊎ (a ≡ 10)
    ⊎ (a ≡ 127)
    ⊎ ((a ≡ 100) × (64 ≤ b) × (b ≤ 127))
    ⊎ ((a ≡ 169) × (b ≡ 254))
    ⊎ ((a ≡ 172) × (16 ≤ b) × (b ≤ 31))
    ⊎ ((a ≡ 192) × (b ≡ 168))

-- Two octets are taken for private exactly in the reserved ranges.
pub private_octets_iff : (a b : ℕ) → (is_private_octets a b ≡ true) ↔ IsReserved a b
unfolding is_private_octets
private_octets_iff a b = (λ h. ground arith, λ h. ground arith)

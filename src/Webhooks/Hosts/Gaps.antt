-- ===== src/Webhooks/Hosts/Gaps.antt =====
-- Hosts that `isPrivateHost` of webhooks.service.ts lets through.
use signara.Prelude.{◌≡◌, refl, false, [], ◌∷◌, ◌++◌}
use signara.Text.{Text, colon}
use signara.Webhooks.Hosts.{is_private_name}

-- The `::ffff:` that an IPv4 address in IPv6 form starts with.
abbrev pub mapped_prefix : Text
mapped_prefix = colon ∷ colon ∷ b'f' ∷ b'f' ∷ b'f' ∷ b'f' ∷ colon ∷ []

-- No IPv4-mapped IPv6 address is taken for private, whatever the IPv4 address in it.
pub mapped_public : (address : Text) → is_private_name (mapped_prefix ++ address) ≡ false
unfolding is_private_name
mapped_public address = refl

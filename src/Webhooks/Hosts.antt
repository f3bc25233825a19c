-- ===== src/Webhooks/Hosts.antt =====
-- Which hosts a webhook may not reach (`isPrivateHost` of webhooks.service.ts). A hostname is the
-- list of its code points, in lower case already.
pub mod Ranges
pub mod Gaps
use signara.Prelude.{
  ℕ, ◌+◌, ◌*◌, ◌-◌, Bool, true, false, not, ◌&&◌, ◌||◌, ◌==◌, leb, List, [], ◌∷◌, if◌then◌else◌,
  every, length,
}
use signara.Text.{Text, dot, colon, text_eq, starts_with, ends_with, includes, split_on}

-- `.replace(/^\[|\]$/g, '')`
unfoldable pub strip_open : Text → Text
strip_open [] = []
strip_open (c ∷ s) = if c == b'[' then s else c ∷ s

unfoldable pub strip_close : Text → Text
strip_close [] = []
strip_close (c ∷ []) = if c == b']' then [] else c ∷ []
strip_close (c ∷ d ∷ s) = c ∷ strip_close (d ∷ s)

-- `s.split('.')`
unfoldable pub split_dots : Text → List Text
unfolding split_on
split_dots s = split_on dot s

-- `\d{1,3}`
abbrev pub is_digit : ℕ → Bool
is_digit c = leb b'0' c && leb c b'9'

abbrev pub is_octet : Text → Bool
is_octet p = leb 1 (length p) && leb (length p) 3 && every is_digit p

-- `Number(text)` of a text of digits
unfoldable pub number_from : ℕ → Text → ℕ
number_from acc [] = acc
number_from acc (c ∷ s) = number_from (acc * 10 + (c - b'0')) s

-- The ranges of the source, by the first two octets.
unfoldable pub is_private_octets : ℕ → ℕ → Bool
is_private_octets a b =
    a == 0
    || a == 10
    || a == 127
    || (a == 100 && leb 64 b && leb b 127)
    || (a == 169 && b == 254)
    || (a == 172 && leb 16 b && leb b 31)
    || (a == 192 && b == 168)

-- The regular expression for a dotted quad, and the test of its first two groups.
unfoldable pub is_private_quad : List Text → Bool
unfolding number_from is_private_octets
is_private_quad (p ∷ q ∷ r ∷ s ∷ []) =
    is_octet p
    && is_octet q
    && is_octet r
    && is_octet s
    && is_private_octets (number_from 0 p) (number_from 0 q)
is_private_quad _ = false

abbrev local_suffix : Text
local_suffix = b'.' ∷ b'l' ∷ b'o' ∷ b'c' ∷ b'a' ∷ b'l' ∷ []

abbrev localhost_suffix : Text
localhost_suffix = b'.' ∷ b'l' ∷ b'o' ∷ b'c' ∷ b'a' ∷ b'l' ∷ b'h' ∷ b'o' ∷ b's' ∷ b't' ∷ []

abbrev internal_suffix : Text
internal_suffix = b'.' ∷ b'i' ∷ b'n' ∷ b't' ∷ b'e' ∷ b'r' ∷ b'n' ∷ b'a' ∷ b'l' ∷ []

-- `/\.(local|localhost|internal)$/`
abbrev pub is_local_name : Text → Bool
is_local_name s =
    ends_with local_suffix s || ends_with localhost_suffix s || ends_with internal_suffix s

-- `host === '::1' || host === '::' || /^(fc|fd|fe80)/.test(host)`
abbrev pub is_private_v6 : Text → Bool
is_private_v6 s =
    text_eq s (colon ∷ colon ∷ b'1' ∷ [])
    || text_eq s (colon ∷ colon ∷ [])
    || starts_with (b'f' ∷ b'c' ∷ []) s
    || starts_with (b'f' ∷ b'd' ∷ []) s
    || starts_with (b'f' ∷ b'e' ∷ b'8' ∷ b'0' ∷ []) s

unfoldable pub is_private_name : Text → Bool
unfolding is_private_quad split_dots
is_private_name host =
    if includes colon host
    then is_private_v6 host
    else if not (includes dot host) || is_local_name host
    then true
    else is_private_quad (split_dots host)

-- `lower` is the language's `toLowerCase`.
unfoldable pub is_private_host : (Text → Text) → Text → Bool
unfolding is_private_name strip_open strip_close
is_private_host lower hostname = is_private_name (strip_close (strip_open (lower hostname)))

-- ===== src/Crypto.antt =====
-- Secrets at rest (apps/api/src/common/crypto.ts). The hash, AES-GCM and base64url are the platform's.
pub mod Roundtrip
use signara.Prelude.{
  ℕ, true, false, not, ◌&&◌, ◌||◌, Option, none, some, List, [], ◌∷◌, if◌then◌else◌,
}
use signara.Exec.{Outcome, ok, throw, internal}
use signara.Text.{Text, colon, text_eq, is_blank_text, split_on, join}

abbrev pub Bytes : Type 0
Bytes = List ℕ

-- What AES-GCM gives for a plaintext: the data and the tag.
pub record Sealed : Type 0 where
  pub data_of : Bytes
  pub tag_of : Bytes

pub record Cipher : Type 0 where
  -- `createHash('sha256').update(text, 'utf8').digest()`
  pub sha256 : Text → Bytes
  -- `createCipheriv('aes-256-gcm', key, iv)` on the plaintext's UTF-8
  pub seal : Bytes → Bytes → Text → Sealed
  -- `createDecipheriv` with the tag set; `none` where `final()` throws
  pub unseal : Bytes → Bytes → Sealed → Option Text
  pub base64url : Bytes → Text
  pub from_base64url : Text → Bytes
  -- the n-th `randomBytes(12)`
  pub random_iv : ℕ → Bytes

abbrev enc_tag : Text
enc_tag = b'e' ∷ b'n' ∷ b'c' ∷ []

abbrev v1_tag : Text
v1_tag = b'v' ∷ b'1' ∷ []

module _ (c : Cipher) where
  abbrev pub derive_key : Text → Bytes
  derive_key master_key = c.sha256 master_key

  abbrev payload_parts : Bytes → Sealed → List Text
  payload_parts iv s =
      enc_tag ∷ v1_tag ∷ c.base64url iv ∷ c.base64url s.tag_of ∷ c.base64url s.data_of ∷ []

  unfoldable pub encrypt_secret : Bytes → Text → Text → Outcome Text
  encrypt_secret iv plaintext master_key =
      if is_blank_text master_key
      then throw
          (internal "CRYPTO_MASTER_KEY is not configured — cannot persist private key material")
      else ok (join colon (payload_parts iv (c.seal (derive_key master_key) iv plaintext)))

  abbrev opened : Option Text → Outcome Text
  opened none = throw (internal "Unsupported state or unable to authenticate data")
  opened (some plaintext) = ok plaintext

  unfoldable decrypt_parts : List Text → Text → Outcome Text
  decrypt_parts (enc ∷ v1 ∷ iv ∷ tag ∷ data_part ∷ []) master_key =
      if not (text_eq enc enc_tag) || not (text_eq v1 v1_tag)
      then throw (internal "Unsupported secret payload format")
      else opened (
          c.unseal (derive_key master_key) (c.from_base64url iv)
            (record { data_of = c.from_base64url data_part; tag_of = c.from_base64url tag }))
  decrypt_parts _ master_key = throw (internal "Unsupported secret payload format")

  unfoldable pub decrypt_secret : Text → Text → Outcome Text
  unfolding decrypt_parts
  decrypt_secret payload master_key =
      if is_blank_text master_key
      then throw
          (internal "CRYPTO_MASTER_KEY is not configured — cannot decrypt private key material")
      else decrypt_parts (split_on colon payload) master_key

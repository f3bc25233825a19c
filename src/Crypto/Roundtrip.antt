-- ===== src/Crypto/Roundtrip.antt =====
-- What `decryptSecret` of crypto.ts gives back.
use signara.Prelude.{◌≡◌, refl, ap, false, some, [], ◌∷◌}
use signara.Exec.{ok}
use signara.Text.{Text, colon, IsFree, is_blank_text, split_on, split-join, join}
use signara.Crypto.{
  Bytes, Cipher, Sealed, encrypt_secret, decrypt_secret, decrypt_parts, derive_key, payload_parts,
  enc_tag, v1_tag, opened,
}

-- What the documentation of the platform says of its encodings: base64url writes no colon and is
-- undone by reading it; AES-GCM opens what it sealed with the same key and nonce.
pub record IsCipher (c : Cipher) : Type 0 where
  pub no_colon : (b : Bytes) → IsFree colon (c.base64url b)
  pub decodes : (b : Bytes) → c.from_base64url (c.base64url b) ≡ b
  pub opens : (key iv : Bytes) (p : Text) → c.unseal key iv (c.seal key iv p) ≡ some p

module _ (c : Cipher) (lawful : IsCipher c) where
  split-payload :
      (iv : Bytes) (s : Sealed)
      → split_on colon (join colon (payload_parts c iv s)) ≡ payload_parts c iv s
  split-payload iv s =
      split-join colon enc_tag
        (v1_tag ∷ c.base64url iv ∷ c.base64url s.tag_of ∷ c.base64url s.data_of ∷ [])
        (
          refl,
          (refl, (lawful.no_colon iv, (lawful.no_colon s.tag_of, (lawful.no_colon s.data_of, tt)))),
        )

  -- Under a master key that is set, every secret is encrypted, whatever nonce was drawn, to a payload
  -- that is decrypted to the secret.
  pub decrypt-encrypt :
      (iv : Bytes) (plaintext master_key : Text)
      → is_blank_text master_key ≡ false
      → (payload : Text) × (encrypt_secret c iv plaintext master_key ≡ ok payload)
        × (decrypt_secret c payload master_key ≡ ok plaintext)
  unfolding encrypt_secret decrypt_secret decrypt_parts
  decrypt-encrypt iv plaintext master_key set =
      let s = c.seal (derive_key c master_key) iv plaintext in
      (
        join colon (payload_parts c iv s),
        rw set,
        rw
            (
              set,
              split-payload iv s,
              lawful.decodes iv,
              lawful.decodes s.tag_of,
              lawful.decodes s.data_of,
            )
            (ap (opened c) (lawful.opens (derive_key c master_key) iv plaintext)),
      )

-- ===== src/Identity/Secrets.antt =====
-- `encryptSecret` and `decryptSecret` of packages/auth/src/index.ts. SHA-256 and AES-256-GCM, of
-- node:crypto, are parameters.
use node_with_aoth.Prelude.{ℕ, ◌≡◌, refl, String, Option, none, some, List, ◌∷◌}
use node_with_aoth.Database.Action.{Result, ok, err, bad_ciphertext}
use node_with_aoth.Identity.Hex.{
  append_text, to_hex, of_hex, split_dots, IsBytes, of_hex-to_hex, split_dots-to_hex,
  split_dots-to_hex_end,
}

-- `seal` is createCipheriv with the key, the IV and a text, up to the data and the tag; `unseal` is
-- createDecipheriv with the key, the IV, the tag and the data, and `none` where `final()` throws.
pub record Crypto : Type 0 where
  pub sha256 : String → List ℕ
  pub seal : List ℕ → List ℕ → String → List ℕ × List ℕ
  pub unseal : List ℕ → List ℕ → List ℕ → List ℕ → Option String

-- What node:crypto documents of AES-256-GCM: data and tag are bytes, and what was encrypted is
-- decrypted under the same key and IV.
pub record IsCipher (c : Crypto) : Type 0 where
  pub data_bytes : (key iv : List ℕ) (v : String) → IsBytes (c.seal key iv v).0
  pub tag_bytes : (key iv : List ℕ) (v : String) → IsBytes (c.seal key iv v).1
  pub opens :
      (key iv : List ℕ) (v : String)
      → c.unseal key iv (c.seal key iv v).1 (c.seal key iv v).0 ≡ some v

abbrev pub opened : Option String → Result String
opened none = err bad_ciphertext
opened (some v) = ok v

-- `env_key` is `env.REFRESH_TOKEN_ENCRYPTION_KEY`.
module _ (c : Crypto) (env_key : String) where
  abbrev encryption_key : List ℕ
  encryption_key = c.sha256 env_key

  -- `iv` is `crypto.randomBytes(12)`.
  unfoldable pub encrypt_secret : List ℕ → String → String
  encrypt_secret iv value =
      let (encrypted, tag) = c.seal encryption_key iv value in
      append_text (to_hex iv)
        (append_text "." (append_text (to_hex tag) (append_text "." (to_hex encrypted))))

  -- `const [ivHex, tagHex, dataHex] = …`: where a part is missing, `Buffer.from(undefined)` throws.
  abbrev pub decrypt_parts : List String → Result String
  decrypt_parts (iv ∷ tag ∷ encrypted ∷ _) =
      opened (c.unseal encryption_key (of_hex iv) (of_hex tag) (of_hex encrypted))
  decrypt_parts _ = err bad_ciphertext

  unfoldable pub decrypt_secret : String → Result String
  decrypt_secret ciphertext = decrypt_parts (split_dots ciphertext)

  -- With a cipher that keeps its documented promise, what is encrypted under any IV of bytes is decrypted to
  -- the same text.
  pub decrypt_secret-encrypt_secret :
      IsCipher c
      → (iv : List ℕ) → IsBytes iv
      → (value : String) → decrypt_secret (encrypt_secret iv value) ≡ ok value
  unfolding decrypt_secret encrypt_secret
  decrypt_secret-encrypt_secret k iv h value =
      let sealed = c.seal encryption_key iv value in
      let tag_ok = k.tag_bytes encryption_key iv value in
      let data_ok = k.data_bytes encryption_key iv value in
      rw
        (
          split_dots-to_hex iv (append_text (to_hex sealed.1) (append_text "." (to_hex sealed.0)))
              h,
          split_dots-to_hex sealed.1 (to_hex sealed.0) tag_ok,
          split_dots-to_hex_end sealed.0 data_ok,
          of_hex-to_hex iv h,
          of_hex-to_hex sealed.1 tag_ok,
          of_hex-to_hex sealed.0 data_ok,
          k.opens encryption_key iv value,
        )
        refl

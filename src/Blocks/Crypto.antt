-- ===== src/Blocks/Crypto.antt =====
-- client/src/main/blocks/crypto.ts: blocks encrypted at rest, tagged by a version byte. The ciphers are
-- those of sodium-native and the hash is Node's: both are parameters.
use united.Prelude.{
  ℕ, ◌+◌, ◌≡◌, Bool, [], ◌∷◌, ◌++◌, Option, none, some, length, take, drop, ltb, ◌==◌,
  if◌then◌else◌,
}
use united.Blocks.Types.{Buffer}

-- An authenticated cipher: a ciphertext is longer than its text by the tag, and only what was
-- encrypted under the nonce and the key decrypts to its text; `none` is an exception.
pub record Cipher : Type 0 where
  pub tag_size : ℕ
  pub encrypt : Buffer → Buffer → Buffer → Buffer
  pub decrypt : Buffer → Buffer → Buffer → Option Buffer
  pub length-encrypt :
      (text nonce key : Buffer) → length (encrypt text nonce key) ≡ length text + tag_size
  pub decrypt-encrypt :
      (text nonce key : Buffer) → decrypt (encrypt text nonce key) nonce key ≡ some text

-- sodium-native: whether the processor has AES, and the two ciphers.
pub record Sodium : Type 0 where
  pub aes_available : Bool
  pub aes256gcm : Cipher
  pub xchacha20 : Cipher

abbrev pub version_aes_gcm : ℕ
version_aes_gcm = 0x01

abbrev pub version_xchacha20 : ℕ
version_xchacha20 = 0x02

abbrev pub aes_gcm_nonce_size : ℕ
aes_gcm_nonce_size = 12

abbrev pub xchacha_nonce_size : ℕ
xchacha_nonce_size = 24

-- nonce || ciphertext
unfoldable pub seal : Cipher → Buffer → Buffer → Buffer → Buffer
seal cipher nonce text key = nonce ++ cipher.encrypt text nonce key

-- `random n` is what `randombytes_buf` writes to a buffer of `n` bytes.
unfoldable pub encrypt_block : Sodium → (ℕ → Buffer) → Buffer → Buffer → Buffer
unfolding seal
encrypt_block sodium random text key =
    if sodium.aes_available
    then version_aes_gcm ∷ seal sodium.aes256gcm (random aes_gcm_nonce_size) text key
    else version_xchacha20 ∷ seal sodium.xchacha20 (random xchacha_nonce_size) text key

-- A ciphertext shorter than the tag would ask for a buffer of negative size, which throws.
unfoldable pub open_sealed : Cipher → ℕ → Buffer → Buffer → Option Buffer
open_sealed cipher nonce_size sealed key =
    let nonce = take nonce_size sealed in
    let ciphertext = drop nonce_size sealed in
    if ltb (length ciphertext) cipher.tag_size then none else cipher.decrypt ciphertext nonce key

unfoldable pub decrypt_block : Sodium → Buffer → Buffer → Option Buffer
unfolding open_sealed
decrypt_block sodium [] key = none
decrypt_block sodium (version ∷ rest) key =
    if ltb (length (version ∷ rest)) 2
    then none
    else if version == version_aes_gcm
    then open_sealed sodium.aes256gcm aes_gcm_nonce_size rest key
    else if version == version_xchacha20
    then open_sealed sodium.xchacha20 xchacha_nonce_size rest key
    else none

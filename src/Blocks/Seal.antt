-- ===== src/Blocks/Seal.antt =====
-- Encryption at rest and back (client/src/main/blocks/crypto.ts).
use united.Prelude.{
  ℕ, suc, ◌≡◌, ◌<◌, false, some, arith, length, ltb, inl, inr, Bool-cases, take-append_all,
  drop-append_all, length-append,
}
use united.Blocks.Types.{Buffer}
use united.Blocks.Crypto.{Cipher, Sodium, encrypt_block, decrypt_block, seal, open_sealed}

open_sealed-seal :
    (cipher : Cipher) (n : ℕ) (nonce text key : Buffer)
    → length nonce ≡ n
    → open_sealed cipher n (seal cipher nonce text key) key ≡ some text
unfolding open_sealed seal
open_sealed-seal cipher n nonce text key h =
    let c = cipher.encrypt text nonce key in
    let long : ltb (length c) cipher.tag_size ≡ false =
      ground (arith, cipher.length-encrypt text nonce key) in
    rw (take-append_all n nonce c h, drop-append_all n nonce c h, long)
      (cipher.decrypt-encrypt text nonce key)

length-seal :
    (cipher : Cipher) (n : ℕ) (nonce text key : Buffer)
    → length nonce ≡ n
    → 0 < n
    → ltb (suc (length (seal cipher nonce text key))) 2 ≡ false
unfolding seal
length-seal cipher n nonce text key h p =
    ground (arith, length-append nonce (cipher.encrypt text nonce key))

-- What is decrypted is what was encrypted, under either cipher, where the random source fills its
-- buffers.
pub decrypt_block-encrypt_block :
    (sodium : Sodium) (random : ℕ → Buffer) (text key : Buffer)
    → ((n : ℕ) → length (random n) ≡ n)
    → decrypt_block sodium (encrypt_block sodium random text key) key ≡ some text
unfolding encrypt_block decrypt_block
decrypt_block-encrypt_block sodium random text key fills = elim (Bool-cases sodium.aes_available) [
  | inl aes ↦
      rw (aes, length-seal sodium.aes256gcm 12 (random 12) text key (fills 12) (omega arith))
        (open_sealed-seal sodium.aes256gcm 12 (random 12) text key (fills 12))
  | inr fallback ↦
      rw (fallback, length-seal sodium.xchacha20 24 (random 24) text key (fills 24) (omega arith))
        (open_sealed-seal sodium.xchacha20 24 (random 24) text key (fills 24))
]

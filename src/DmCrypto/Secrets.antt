-- ===== src/DmCrypto/Secrets.antt =====
-- client/src/main/ipc/dm-crypto.ts: the cache of shared secrets, and messages encrypted under them. A time
-- passes between the lookup in the cache and the answer of the server, so other calls may come between.
use united.Prelude.{[], String, Option, none, some, length, ltb, if◌then◌else◌}
use united.Prelude.Dict.{Dict, lookup, insert}
use united.Blocks.Types.{Buffer}
use united.Blocks.Crypto.{Cipher}
use united.DmCrypto.Keys.{
  Promised, resolved, rejected, SessionKeys, Curve, Encodings, Response, derive_x25519_from_ed25519,
  compute_shared_secret, fetch_peer_dm_key,
}

pub record EncryptedMessage : Type 0 where
  pub encrypted : Buffer
  pub nonce : Buffer

-- `nonce` is what `randombytes_buf` wrote.
unfoldable pub encrypt_dm_message : Cipher → Encodings → Buffer → String → Buffer → EncryptedMessage
encrypt_dm_message cipher text nonce plaintext shared_secret = record {
  encrypted = cipher.encrypt (text.to_utf8 plaintext) nonce shared_secret;
  nonce = nonce;
}

-- `none` is an exception; a ciphertext shorter than the tag would ask for a buffer of negative size.
unfoldable pub decrypt_dm_message : Cipher → Encodings → Buffer → Buffer → Buffer → Option String
decrypt_dm_message cipher text encrypted nonce shared_secret =
    if ltb (length encrypted) cipher.tag_size
    then none
    else elim (cipher.decrypt encrypted nonce shared_secret) [
      | none ↦ none
      | some plaintext ↦ some (text.of_utf8 plaintext)
    ]

-- What is computed once the server has answered.
unfoldable pub new_secret :
    Curve → Encodings → Option SessionKeys → String → Response String → Promised (Option Buffer)
unfolding fetch_peer_dm_key derive_x25519_from_ed25519 compute_shared_secret
new_secret curve text keys peer response = elim (fetch_peer_dm_key text peer response) [
  | rejected message ↦ rejected message
  | resolved none ↦ resolved none
  | resolved (some peer_x25519_pub) ↦ elim (derive_x25519_from_ed25519 curve keys) [
    | rejected message ↦ rejected message
    | resolved pair ↦ elim (compute_shared_secret curve pair.x25519_sec peer_x25519_pub) [
      | rejected message ↦ rejected message
      | resolved secret ↦ resolved (some secret)
    ]
  ]
]

-- `sharedSecretCache.set`
unfoldable pub keep_secret :
    String → Promised (Option Buffer) → Dict Buffer → Dict Buffer × Promised (Option Buffer)
keep_secret conversation (rejected message) cache = (cache, rejected message)
keep_secret conversation (resolved none) cache = (cache, resolved none)
keep_secret conversation (resolved (some secret)) cache =
    (insert conversation secret cache, resolved (some secret))

unfoldable pub get_or_compute_shared_secret :
    Curve
    → Encodings
    → Option SessionKeys
    → String
    → String
    → Response String
    → Dict Buffer
    → Dict Buffer × Promised (Option Buffer)
unfolding keep_secret new_secret
get_or_compute_shared_secret curve text keys conversation peer response cache =
    elim (lookup conversation cache) [
      | some cached ↦ (cache, resolved (some cached))
      | none ↦ keep_secret conversation (new_secret curve text keys peer response) cache
    ]

-- The buffers are set to zero as well.
unfoldable pub clear_shared_secret_cache : Dict Buffer → Dict Buffer
clear_shared_secret_cache cache = []

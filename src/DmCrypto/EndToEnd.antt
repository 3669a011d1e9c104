-- ===== src/DmCrypto/EndToEnd.antt =====
-- Two users derive one secret, and what one sends the other reads (client/src/main/ipc/dm-crypto.ts and
-- client/src/main/ipc/dm.ts).
use united.Prelude.{
  ◌≡◌, sym, ◌∙◌, false, String, Option, none, some, inl, inr, refl, arith, ltb, length,
}
use united.Prelude.Dict.{Dict, lookup}
use united.Blocks.Types.{Buffer}
use united.Blocks.Crypto.{Cipher}
use united.DmCrypto.Keys.{
  resolved, rejected, SessionKeys, Curve, Encodings, body, api_request, Promised-cases,
  derive_x25519_from_ed25519, compute_shared_secret, published_key, fetch_peer_dm_key,
}
use united.DmCrypto.Secrets.{
  EncryptedMessage, encrypt_dm_message, decrypt_dm_message, new_secret, keep_secret,
  get_or_compute_shared_secret,
}
use united.DmCrypto.Messages.{
  EncryptedDmMessage, readable, decrypt_server_message, shown, post_message, send_message,
  handle_dm_message,
}

pub decrypt_dm_message-encrypt_dm_message :
    (cipher : Cipher) (text : Encodings) (nonce key : Buffer) (content : String)
    → text.of_utf8 (text.to_utf8 content) ≡ content
    → let e = encrypt_dm_message cipher text nonce content key in
      decrypt_dm_message cipher text e.encrypted e.nonce key ≡ some content
unfolding encrypt_dm_message decrypt_dm_message
decrypt_dm_message-encrypt_dm_message cipher text nonce key content survives =
    let plain = text.to_utf8 content in
    let long : ltb (length (cipher.encrypt plain nonce key)) cipher.tag_size ≡ false =
      ground (arith, cipher.length-encrypt plain nonce key) in
    rw (long, cipher.decrypt-encrypt plain nonce key, survives) refl

-- What the server makes of a message that it is sent, where `m` has what it adds.
abbrev pub relay : EncryptedDmMessage → EncryptedMessage → EncryptedDmMessage
relay m e = record m { encrypted_payload = e.encrypted; nonce = e.nonce }

module _ (curve : Curve) (text : Encodings) where
  -- An identity whose public key belongs to its secret key.
  abbrev pub identity : Buffer → Option SessionKeys
  identity secret =
      some (record { public_key = curve.ed25519_sk_to_pk secret; secret_key = secret })

  pub published_key-point :
      (secret : Buffer) (hex : String)
      → published_key curve text (identity secret) ≡ resolved hex
      → curve.pk_to_curve25519 (curve.ed25519_sk_to_pk secret) ≡ resolved (text.hex_to_buf hex)
  unfolding published_key derive_x25519_from_ed25519
  published_key-point secret hex h =
      elim (Promised-cases (curve.pk_to_curve25519 (curve.ed25519_sk_to_pk secret))) [
        | inl (point, e) ↦
            let made : published_key curve text (identity secret)
                ≡ resolved (text.buf_to_hex point) =
              rw (e) refl in
            let same : text.buf_to_hex point ≡ hex = cc in
            rw (e, ← same, text.hex_to_buf-buf_to_hex point) refl
        | inr (message, e) ↦
            let made : published_key curve text (identity secret) ≡ rejected message =
              rw (e) refl in
            absurd (cc)
      ]

  -- Each computes the same from its own secret key and the key that the other has published.
  compute_shared_secret-swap :
      (a b : Buffer) (hex_a hex_b : String)
      → published_key curve text (identity a) ≡ resolved hex_a
      → published_key curve text (identity b) ≡ resolved hex_b
      → compute_shared_secret curve (curve.sk_to_curve25519 a) (text.hex_to_buf hex_b)
        ≡ compute_shared_secret curve (curve.sk_to_curve25519 b) (text.hex_to_buf hex_a)
  unfolding compute_shared_secret
  compute_shared_secret-swap a b hex_a hex_b ha hb =
      rw
        (
          compute_shared_secret,
          curve.scalarmult-swap a b (text.hex_to_buf hex_a) (text.hex_to_buf hex_b)
              (published_key-point a hex_a ha) (published_key-point b hex_b hb),
        )
        refl

  new_secret-published :
      (a k : Buffer) (hex_a hex_b peer : String)
      → published_key curve text (identity a) ≡ resolved hex_a
      → compute_shared_secret curve (curve.sk_to_curve25519 a) (text.hex_to_buf hex_b) ≡ resolved k
      → new_secret curve text (identity a) peer (body hex_b) ≡ resolved (some k)
  unfolding new_secret fetch_peer_dm_key api_request derive_x25519_from_ed25519
  new_secret-published a k hex_a hex_b peer ha h = rw (published_key-point a hex_a ha, h) refl

  get_or_compute_shared_secret-published :
      (a k : Buffer) (hex_a hex_b conversation peer : String) (cache : Dict Buffer)
      → published_key curve text (identity a) ≡ resolved hex_a
      → compute_shared_secret curve (curve.sk_to_curve25519 a) (text.hex_to_buf hex_b) ≡ resolved k
      → lookup conversation cache ≡ none
      → (get_or_compute_shared_secret curve text
          (identity a)
          conversation
          peer
          (body hex_b)
          cache).1
        ≡ resolved (some k)
  unfolding get_or_compute_shared_secret keep_secret
  get_or_compute_shared_secret-published a k hex_a hex_b conversation peer cache ha h fresh =
      rw (get_or_compute_shared_secret, fresh, new_secret-published a k hex_a hex_b peer ha h) refl

  module _ (cipher : Cipher) where
    decrypt_server_message-encrypt_dm_message :
        (nonce key : Buffer) (content : String) (m : EncryptedDmMessage)
        → text.of_utf8 (text.to_utf8 content) ≡ content
        → let e = encrypt_dm_message cipher text nonce content key in
          decrypt_server_message cipher text
            (record m { encrypted_payload = e.encrypted; nonce = e.nonce })
            key
          ≡ readable m content
    unfolding decrypt_server_message readable
    decrypt_server_message-encrypt_dm_message nonce key content m survives =
        rw
          (
            decrypt_server_message,
            decrypt_dm_message-encrypt_dm_message cipher text nonce key content survives,
          )
          refl

  -- What one user sends in a conversation reaches the other as it was typed, and both windows show the
  -- same message: where the text survives UTF-8, neither has a secret of the conversation yet, each key
  -- that was published is fetched, the agreed product of the keys is no exception, and the server adds its
  -- fields and passes the ciphertext and the nonce on.
  pub handle_dm_message-send_message :
      (cipher : Cipher) (a b nonce : Buffer) (hex_a hex_b recipient content : String)
      (m : EncryptedDmMessage) (cache_a cache_b : Dict Buffer)
      → text.of_utf8 (text.to_utf8 content) ≡ content
      → published_key curve text (identity a) ≡ resolved hex_a
      → published_key curve text (identity b) ≡ resolved hex_b
      → ((k : Buffer) × (compute_shared_secret curve
              (curve.sk_to_curve25519 a)
              (text.hex_to_buf hex_b)
            ≡ resolved k))
      → lookup m.conversation_id cache_a ≡ none
      → lookup m.conversation_id cache_b ≡ none
      → let sent =
          send_message cipher curve text
            (identity a)
            m.conversation_id
            recipient
            (body hex_b)
            (λ e. body (relay m e))
            nonce
            content
            cache_a in
        (e : EncryptedMessage) × ((sent.posted ≡ some e)
          × ((sent.answer ≡ resolved (shown (readable m content)))
              × ((handle_dm_message cipher curve text
                    (identity b)
                    (relay m e)
                    (body hex_a)
                    cache_b).1
                  ≡ readable m content)))
  unfolding send_message handle_dm_message post_message api_request readable
  handle_dm_message-send_message cipher a b nonce hex_a hex_b recipient content m cache_a cache_b
        survives ha hb (k, h) fresh_a fresh_b =
      let sends =
        get_or_compute_shared_secret-published a k hex_a hex_b m.conversation_id recipient cache_a
          ha h fresh_a in
      let reads =
        get_or_compute_shared_secret-published b k hex_b hex_a m.conversation_id m.sender_pubkey
          cache_b hb (sym (compute_shared_secret-swap a b hex_a hex_b ha hb) ∙ h) fresh_b in
      (
        encrypt_dm_message cipher text nonce content k,
        (
          rw (send_message, sends) refl,
          (
            rw (send_message, sends) refl,
            rw (handle_dm_message, reads)
                (decrypt_server_message-encrypt_dm_message cipher nonce k content m survives),
          ),
        ),
      )

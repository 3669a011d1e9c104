-- ===== src/DmCrypto/Messages.antt =====
-- How direct messages are sent, received and fetched (client/src/main/ipc/dm.ts, and handleDmMessage of
-- client/src/main/ws/dm-events.ts). Bytes stand for their base64 text. A request is the answer that it
-- gets, or a function to it where what is sent matters.
use united.Prelude.{ℕ, Bool, true, false, List, map, String, Option, none, some}
use united.Prelude.Dict.{Dict}
use united.Blocks.Types.{Buffer}
use united.Blocks.Crypto.{Cipher}
use united.Dm.Types.{DecryptedDmMessage, DmHistory}
use united.DmCrypto.Keys.{
  Promised, resolved, rejected, SessionKeys, Curve, Encodings, Response, api_request,
}
use united.DmCrypto.Secrets.{
  EncryptedMessage, encrypt_dm_message, decrypt_dm_message, get_or_compute_shared_secret,
}

pub record EncryptedDmMessage : Type 0 where
  pub id : String
  pub conversation_id : String
  pub sender_pubkey : String
  pub sender_display_name : String
  pub encrypted_payload : Buffer
  pub nonce : Buffer
  pub timestamp : ℕ
  pub server_sequence : ℕ

unfoldable pub readable : EncryptedDmMessage → String → DecryptedDmMessage
readable m content = record {
  id = m.id;
  conversation_id = m.conversation_id;
  sender_pubkey = m.sender_pubkey;
  sender_display_name = m.sender_display_name;
  content = content;
  timestamp = m.timestamp;
  server_sequence = m.server_sequence;
  decryption_failed = false;
}

unfoldable pub unreadable : EncryptedDmMessage → DecryptedDmMessage
unfolding readable
unreadable m = record (readable m "[Unable to decrypt]") { decryption_failed = true }

unfoldable pub decrypt_server_message :
    Cipher → Encodings → EncryptedDmMessage → Buffer → DecryptedDmMessage
unfolding readable unreadable decrypt_dm_message
decrypt_server_message cipher text m secret =
    elim (decrypt_dm_message cipher text m.encrypted_payload m.nonce secret) [
      | none ↦ unreadable m
      | some content ↦ readable m content
    ]

pub data Sent : Type 0 where
  key_unavailable : Sent
  shown : DecryptedDmMessage → Sent

-- The message that the server stored is shown with the text that was typed.
unfoldable pub post_message :
    (EncryptedMessage → Response EncryptedDmMessage) → EncryptedMessage → String → Promised Sent
unfolding readable api_request
post_message post e content = elim (api_request "/api/dm/messages" (post e)) [
  | rejected message ↦ rejected message
  | resolved m ↦ resolved (shown (readable m content))
]

-- What `DM_SEND_MESSAGE` leaves behind: the cache, what it posted, and what the renderer is answered.
pub record Sending : Type 0 where
  pub shared_secrets : Dict Buffer
  pub posted : Option EncryptedMessage
  pub answer : Promised Sent

module _ (cipher : Cipher) (curve : Curve) (text : Encodings) where
  -- `DM_SEND_MESSAGE`
  unfoldable pub send_message :
      Option SessionKeys
      → String
      → String
      → Response String
      → (EncryptedMessage → Response EncryptedDmMessage)
      → Buffer
      → String
      → Dict Buffer
      → Sending
  unfolding get_or_compute_shared_secret encrypt_dm_message post_message
  send_message keys conversation recipient key_response post nonce content cache =
      let got =
        get_or_compute_shared_secret curve text keys conversation recipient key_response cache in
      elim got.1 [
        | rejected message ↦ record {
          shared_secrets = got.0;
          posted = none;
          answer = rejected message;
        }
        | resolved none ↦ record {
          shared_secrets = got.0;
          posted = none;
          answer = resolved key_unavailable;
        }
        | resolved (some secret) ↦
            let e = encrypt_dm_message cipher text nonce content secret in
            record { shared_secrets = got.0; posted = some e; answer = post_message post e content }
      ]

  -- `handleDmMessage` of an authenticated client: the message that is broadcast.
  unfoldable pub handle_dm_message :
      Option SessionKeys
      → EncryptedDmMessage
      → Response String
      → Dict Buffer
      → Dict Buffer × DecryptedDmMessage
  unfolding get_or_compute_shared_secret decrypt_server_message unreadable
  handle_dm_message keys m key_response cache =
      let got =
        get_or_compute_shared_secret curve text keys m.conversation_id m.sender_pubkey key_response
          cache in
      (
        got.0,
        elim got.1 [
          | rejected message ↦ unreadable m
          | resolved none ↦ unreadable m
          | resolved (some secret) ↦ decrypt_server_message cipher text m secret
        ],
      )

  unfoldable pub decrypt_history : List EncryptedDmMessage → Bool → Option Buffer → DmHistory
  unfolding decrypt_server_message unreadable
  decrypt_history messages has_more none = record {
    messages = map unreadable messages;
    has_more = has_more;
  }
  decrypt_history messages has_more (some secret) = record {
    messages = map (λ m. decrypt_server_message cipher text m secret) messages;
    has_more = has_more;
  }

  -- `DM_FETCH_HISTORY`, from the answer of the server on.
  unfoldable pub fetch_history :
      Option SessionKeys
      → String
      → String
      → List EncryptedDmMessage
      → Bool
      → Response String
      → Dict Buffer
      → Dict Buffer × Promised DmHistory
  unfolding get_or_compute_shared_secret decrypt_history
  fetch_history keys conversation recipient messages has_more key_response cache =
      let got =
        get_or_compute_shared_secret curve text keys conversation recipient key_response cache in
      (
        got.0,
        elim got.1 [
          | rejected message ↦ rejected message
          | resolved secret ↦ resolved (decrypt_history messages has_more secret)
        ],
      )

-- ===== src/DmCrypto/Keys.antt =====
-- client/src/main/ipc/dm-crypto.ts: X25519 keys from the Ed25519 identity, how they are published and
-- fetched, and the shared secret of two users. The curve and the hash are those of sodium-native, and
-- the encodings Node's: they are parameters with their documented behaviour. Buffers that are set to zero
-- after use are not modelled.
use Prim.Native.String.{[] as empty, ◌∷◌ as put, ◌++◌ as concat}
use united.Prelude.{◌≡◌, refl, ◌⊎◌, inl, inr, Bool, ◌||◌, String, Option, none, some, if◌then◌else◌}
use united.Blocks.Types.{Buffer}
use text.Mathlib.Text.{starts_with}

-- What a call that may throw, or a promise, comes to; an error has its message.
pub data Promised {ℓ} (A : Type ℓ) : Type ℓ where
  resolved : A → Promised A
  rejected : String → Promised A

pub Promised-cases {ℓ} :
    {A : Type ℓ} (x : Promised A)
    → ((a : A) × (x ≡ resolved a)) ⊎ ((message : String) × (x ≡ rejected message))
Promised-cases (resolved a) = inl (a, refl)
Promised-cases (rejected message) = inr (message, refl)

pub record SessionKeys : Type 0 where
  pub public_key : Buffer
  pub secret_key : Buffer

pub record X25519KeyPair : Type 0 where
  pub x25519_pub : Buffer
  pub x25519_sec : Buffer

-- Two users agree on the product of either's secret with the other's public key. A public key that is no
-- point of the curve, and a product that is zero, are exceptions.
pub record Curve : Type 0 where
  pub ed25519_sk_to_pk : Buffer → Buffer
  pub pk_to_curve25519 : Buffer → Promised Buffer
  pub sk_to_curve25519 : Buffer → Buffer
  pub scalarmult : Buffer → Buffer → Promised Buffer
  pub generichash : Buffer → Buffer
  pub scalarmult-swap :
      (a b p q : Buffer)
      → pk_to_curve25519 (ed25519_sk_to_pk a) ≡ resolved p
      → pk_to_curve25519 (ed25519_sk_to_pk b) ≡ resolved q
      → scalarmult (sk_to_curve25519 a) q ≡ scalarmult (sk_to_curve25519 b) p

-- A text with a lone surrogate does not survive UTF-8.
pub record Encodings : Type 0 where
  pub buf_to_hex : Buffer → String
  pub hex_to_buf : String → Buffer
  pub to_utf8 : String → Buffer
  pub of_utf8 : Buffer → String
  pub hex_to_buf-buf_to_hex : (b : Buffer) → hex_to_buf (buf_to_hex b) ≡ b

unfoldable pub derive_x25519_from_ed25519 : Curve → Option SessionKeys → Promised X25519KeyPair
derive_x25519_from_ed25519 curve none =
    rejected "Identity not unlocked -- cannot derive X25519 keys"
derive_x25519_from_ed25519 curve (some keys) = elim (curve.pk_to_curve25519 keys.public_key) [
  | rejected message ↦ rejected message
  | resolved x25519_pub ↦
      resolved
        (record { x25519_pub = x25519_pub; x25519_sec = curve.sk_to_curve25519 keys.secret_key })
]

unfoldable pub compute_shared_secret : Curve → Buffer → Buffer → Promised Buffer
compute_shared_secret curve our_secret their_public =
    elim (curve.scalarmult our_secret their_public) [
      | rejected message ↦ rejected message
      | resolved raw_shared ↦ resolved (curve.generichash raw_shared)
    ]

-- What a request comes to: a body, a status that is not of success with the text of the answer, or an
-- exception of `fetch` or of the decoding.
pub data Response {ℓ} (A : Type ℓ) : Type ℓ where
  body : A → Response A
  not_ok : String → String → Response A
  failed : String → Response A

unfoldable pub api_request {ℓ} : {A : Type ℓ} → String → Response A → Promised A
api_request path (body answer) = resolved answer
api_request path (not_ok status text) =
    rejected (concat "API " (concat path (concat " failed (" (concat status (concat "): " text)))))
api_request path (failed message) = rejected message

-- `s.includes(t)`
unfoldable pub includes : String → String → Bool
includes t empty = starts_with empty t
includes t (put c s) = starts_with (put c s) t || includes t s

-- The key that is published, and what is returned when the server has answered.
unfoldable pub published_key : Curve → Encodings → Option SessionKeys → Promised String
unfolding derive_x25519_from_ed25519
published_key curve text keys = elim (derive_x25519_from_ed25519 curve keys) [
  | rejected message ↦ rejected message
  | resolved pair ↦ resolved (text.buf_to_hex pair.x25519_pub)
]

unfoldable pub get_or_publish_dm_key :
    Curve → Encodings → Option SessionKeys → Response String → Promised String
unfolding published_key api_request
get_or_publish_dm_key curve text keys response = elim (published_key curve text keys) [
  | rejected message ↦ rejected message
  | resolved pubkey_hex ↦ elim (api_request "/api/dm/keys" response) [
    | rejected message ↦ rejected message
    | resolved answer ↦ resolved pubkey_hex
  ]
]

unfoldable pub key_path : String → String
key_path peer = concat "/api/dm/keys/" peer

-- Any error whose message has "404" in it counts as a key that is not published.
unfoldable pub fetch_peer_dm_key : Encodings → String → Response String → Promised (Option Buffer)
unfolding api_request includes key_path
fetch_peer_dm_key text peer response = elim (api_request (key_path peer) response) [
  | resolved x25519_pubkey ↦ resolved (some (text.hex_to_buf x25519_pubkey))
  | rejected message ↦ if includes "404" message then resolved none else rejected message
]

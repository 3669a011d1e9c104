-- ===== src/DmCrypto/Fetches.antt =====
-- When the key of a peer counts as not published (client/src/main/ipc/dm-crypto.ts).
use Prim.Native.Char.{Char}
use Prim.Native.String.append
use Prim.Native.String.{[] as empty, ◌∷◌ as put, ◌++◌ as concat}
use united.Prelude.{
  ◌≡◌, refl, sym, ap, ◌∙◌, true, String, Option, none, Bool-cases, inl, inr, arith,
}
use united.Prelude.Dict.{Dict, lookup}
use text.Mathlib.Text.{starts_with}
use text.Mathlib.TextLemmas.{append_assoc}
use text.Mathlib.TextEquality.{starts_with_iff}
use united.Blocks.Types.{Buffer}
use united.Blocks.Crypto.{Cipher}
use united.DmCrypto.Keys.{
  resolved, SessionKeys, Curve, Encodings, Response, not_ok, api_request, includes, key_path,
  fetch_peer_dm_key,
}
use united.DmCrypto.Secrets.{
  EncryptedMessage, new_secret, keep_secret, get_or_compute_shared_secret,
}
use united.DmCrypto.Messages.{EncryptedDmMessage, key_unavailable, send_message}

includes_start : (s t : String) → starts_with s t ≡ true → includes t s ≡ true
unfolding includes
includes_start empty t h = h
includes_start (put c s) t h = rw (h) refl

includes_tail : (c : Char) (s t : String) → includes t s ≡ true → includes t (put c s) ≡ true
unfolding includes
includes_tail c s t h = ground (arith, h)

includes_right : (s u t : String) → includes t u ≡ true → includes t (concat s u) ≡ true
includes_right empty u t h = rw (append.nil u) h
includes_right (put c s) u t h =
    rw (append.cons c s u) (includes_tail c (concat s u) t (includes_right s u t h))

starts_with_more : (s u t : String) → starts_with s t ≡ true → starts_with (concat s u) t ≡ true
starts_with_more s u t h =
    let (rest, p) = (starts_with_iff s t).0 h in
    (starts_with_iff (concat s u) t).1
      (concat rest u, sym (append_assoc t rest u) ∙ ap (λ v. concat v u) p)

includes_left : (s u t : String) → includes t s ≡ true → includes t (concat s u) ≡ true
unfolding includes
includes_left empty u t h = includes_start (concat empty u) t (starts_with_more empty u t h)
includes_left (put c s) u t h = elim (Bool-cases (starts_with (put c s) t)) [
  | inl e ↦ includes_start (concat (put c s) u) t (starts_with_more (put c s) u t e)
  | inr e ↦
      let rest : includes t s ≡ true = ground (arith, e, h) in
      rw (append.cons c s u) (includes_tail c (concat s u) t (includes_left s u t rest))
]

-- The name of the peer stands in the path, and the path in the message.
includes-error :
    (peer status answer : String)
    → includes "404" peer ≡ true
    → includes "404" (
        concat "API "
          (concat (key_path peer) (concat " failed (" (concat status (concat "): " answer)))))
      ≡ true
unfolding key_path
includes-error peer status answer h = includes_right "API " _ "404" (
    includes_left (concat "/api/dm/keys/" peer) _ "404"
      (includes_right "/api/dm/keys/" peer "404" h))

-- A fetch that fails with any status counts as a key that is not published, if the name of the peer has
-- "404" in it.
fetch_peer_dm_key-not_ok :
    (text : Encodings) (peer status answer : String)
    → includes "404" peer ≡ true
    → fetch_peer_dm_key text peer (not_ok status answer) ≡ resolved none
unfolding fetch_peer_dm_key api_request
fetch_peer_dm_key-not_ok text peer status answer h = rw (includes-error peer status answer h) refl

-- Where no secret of the conversation is kept and the server fails, with any status, to give the key of
-- a recipient whose name has "404" in it, the sender is told that the recipient has no key: nothing is
-- posted or kept, and it is no error.
pub send_message-not_ok :
    (cipher : Cipher) (curve : Curve) (text : Encodings) (keys : Option SessionKeys)
    (conversation recipient status answer content : String)
    (post : EncryptedMessage → Response EncryptedDmMessage) (nonce : Buffer) (cache : Dict Buffer)
    → includes "404" recipient ≡ true
    → lookup conversation cache ≡ none
    → send_message cipher curve text keys conversation recipient
        (not_ok status answer)
        post
        nonce
        content
        cache
      ≡ record { shared_secrets = cache; posted = none; answer = resolved key_unavailable }
unfolding send_message get_or_compute_shared_secret keep_secret new_secret
send_message-not_ok cipher curve text keys conversation recipient status answer content post nonce
      cache h fresh =
    let got : get_or_compute_shared_secret curve text keys conversation recipient
          (not_ok status answer) cache
        ≡ (cache, resolved none) =
      rw
        (
          get_or_compute_shared_secret,
          fresh,
          new_secret,
          fetch_peer_dm_key-not_ok text recipient status answer h,
        )
        refl in
    rw (send_message, got, got) refl

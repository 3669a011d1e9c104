-- ===== src/Tests/DmCrypto.antt =====
-- Runs of the encryption of direct messages: a curve whose points are numbers, on which the product is the
-- sum, and a cipher that puts a tag of one byte in front.
use Prim.Native.Char.{char, code}
use Prim.Native.String.{[] as empty, ◌∷◌ as put}
use united.Prelude.{
  ℕ, zero, suc, ◌+◌, ◌≡◌, refl, ap, ◌∙◌, true, String, [], ◌∷◌, some, none, arith, ◌==◌,
  if◌then◌else◌,
}
use united.Prelude.Dict.{lookup}
use united.Blocks.Types.{Buffer}
use united.DmCrypto.Keys.{
  Promised, resolved, rejected, Curve, Encodings, body, not_ok, published_key, includes,
  derive_x25519_from_ed25519, compute_shared_secret,
}
use united.DmCrypto.Secrets.{EncryptedMessage}
use united.DmCrypto.Messages.{
  EncryptedDmMessage, readable, key_unavailable, shown, send_message, handle_dm_message,
}
use united.DmCrypto.EndToEnd.{identity, relay, handle_dm_message-send_message}
use united.DmCrypto.Fetches.{send_message-not_ok}
use united.Tests.Platform.{plain_sodium}

abbrev first_sum : Buffer → Buffer → Promised Buffer
first_sum [] ys = rejected "no point"
first_sum (x ∷ xs) [] = rejected "no point"
first_sum (x ∷ xs) (y ∷ ys) = resolved ((x + y) ∷ [])

first_sum_comm : (a b : Buffer) → first_sum a b ≡ first_sum b a
first_sum_comm [] [] = refl
first_sum_comm [] (y ∷ ys) = refl
first_sum_comm (x ∷ xs) [] = refl
first_sum_comm (x ∷ xs) (y ∷ ys) = ap (λ n. resolved (n ∷ [])) (omega arith)

first_sum_swap :
    (a b p q : Buffer)
    → resolved a ≡ resolved p
    → resolved b ≡ resolved q
    → first_sum a q ≡ first_sum b p
first_sum_swap a b p q ha hb =
    let same_a : a ≡ p = cc in
    let same_b : b ≡ q = cc in rw (← same_a, ← same_b) (first_sum_comm a b)

abbrev sums : Curve
sums = record {
  ed25519_sk_to_pk = λ secret. secret;
  pk_to_curve25519 = λ public. resolved public;
  sk_to_curve25519 = λ secret. secret;
  scalarmult = first_sum;
  generichash = λ raw. raw;
  scalarmult-swap = first_sum_swap;
}

-- A number in strokes, up to a full stop.
abbrev strokes : ℕ → String → String
strokes zero s = put (char 46 tt) s
strokes (suc n) s = put (char 47 tt) (strokes n s)

abbrev tally : Buffer → String
tally [] = ""
tally (n ∷ ns) = strokes n (tally ns)

abbrev read_tally : String → ℕ → Buffer
read_tally empty n = []
read_tally (put c s) n = if code c == 46 then n ∷ read_tally s 0 else read_tally s (suc n)

read_tally-strokes : (m n : ℕ) (s : String) → read_tally (strokes m s) n ≡ (n + m) ∷ read_tally s 0
read_tally-strokes zero n s = ap (λ k. k ∷ read_tally s 0) (omega arith)
read_tally-strokes (suc m) n s =
    read_tally-strokes m (suc n) s ∙ ap (λ k. k ∷ read_tally s 0) (omega arith)

read_tally-tally : (b : Buffer) → read_tally (tally b) 0 ≡ b
read_tally-tally [] = refl
read_tally-tally (n ∷ ns) =
    read_tally-strokes n 0 (tally ns) ∙ rw (read_tally-tally ns) (ap (λ k. k ∷ ns) (omega arith))

abbrev codes : String → Buffer
codes empty = []
codes (put c s) = code c ∷ codes s

-- Of the texts only the one that the runs send.
abbrev texts : Encodings
texts = record {
  buf_to_hex = tally;
  hex_to_buf = λ s. read_tally s 0;
  to_utf8 = codes;
  of_utf8 = λ b. "hi";
  hex_to_buf-buf_to_hex = read_tally-tally;
}

abbrev stored : EncryptedDmMessage
stored = record {
  id = "m1";
  conversation_id = "ab";
  sender_pubkey = "alice";
  sender_display_name = "Alice";
  encrypted_payload = [];
  nonce = [];
  timestamp = 5;
  server_sequence = 9;
}

alice-published : published_key sums texts (identity sums texts (2 ∷ [])) ≡ resolved "//."
unfolding published_key derive_x25519_from_ed25519
alice-published = refl

bob-published : published_key sums texts (identity sums texts (3 ∷ [])) ≡ resolved "///."
unfolding published_key derive_x25519_from_ed25519
bob-published = refl

agreed : compute_shared_secret sums (2 ∷ []) (read_tally "///." 0) ≡ resolved (5 ∷ [])
unfolding compute_shared_secret
agreed = refl

handle_dm_message-send_message_example :
    let cipher = plain_sodium.xchacha20 in
    let sent =
      send_message cipher sums texts
        (identity sums texts (2 ∷ []))
        "ab"
        "bob"
        (body "///.")
        (λ e. body (relay stored e))
        (7 ∷ [])
        "hi"
        [] in
    (e : EncryptedMessage) × ((sent.posted ≡ some e)
      × ((sent.answer ≡ resolved (shown (readable stored "hi")))
          × ((handle_dm_message cipher sums texts
                (identity sums texts (3 ∷ []))
                (relay stored e)
                (body "//.")
                []).1
              ≡ readable stored "hi")))
unfolding lookup
handle_dm_message-send_message_example =
    handle_dm_message-send_message sums texts plain_sodium.xchacha20 (2 ∷ []) (3 ∷ []) (7 ∷ [])
      "//." "///." "bob" "hi" stored [] [] refl alice-published bob-published ((5 ∷ []), agreed)
      refl refl

has_404 : includes "404" "9f404b" ≡ true
unfolding includes
has_404 = refl

send_message-not_ok_example :
    send_message plain_sodium.xchacha20 sums texts
      (identity sums texts (2 ∷ []))
      "ab"
      "9f404b"
      (not_ok "500" "Internal error")
      (λ e. body stored)
      (7 ∷ [])
      "hi"
      []
    ≡ record { shared_secrets = []; posted = none; answer = resolved key_unavailable }
unfolding lookup
send_message-not_ok_example =
    send_message-not_ok plain_sodium.xchacha20 sums texts (identity sums texts (2 ∷ [])) "ab"
      "9f404b" "500" "Internal error" "hi" (λ e. body stored) (7 ∷ []) [] has_404 refl

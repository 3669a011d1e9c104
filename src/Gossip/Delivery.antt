-- ===== src/Gossip/Delivery.antt =====
-- What comes of a message that is published (p2p/gossipsub.ts).
use united.Prelude.{
  ℕ, ◌+◌, ◌^◌, ◌<◌, ◌≤◌, ◌≡◌, ◌≢◌, refl, ap, sym, ◌∙◌, max, String, true, false, [], Option, none,
  some, inl, inr, Bool-cases, Option-cases, arith,
}
use united.Blocks.Types.{Buffer}
use united.Gossip.Number.{to_number_id}
use united.Gossip.Topic.{
  GossipEnvelope, FitsWire, Wire, Gossip, validate_envelope_size, GossipMessage, for_signing,
  envelope, publish_message, is_genuine, accept, handle_message,
}

some-none {ℓ} : {A : Type ℓ} (a : A) → some a ≢ none
some-none a e = absurd (cc)

some_injective {ℓ} : {A : Type ℓ} {a b : A} → some a ≡ some b → a ≡ b
some_injective e = cc

module _ (w : Wire) where
  handle_message-unreadable :
      (topic : String) (bytes : w.Bytes) (now : ℕ) (g : Gossip)
      → w.from_binary bytes ≡ none
      → handle_message w topic bytes now g ≡ (g, none)
  unfolding handle_message
  handle_message-unreadable topic bytes now g bad = rw (bad, handle_message) refl

  handle_message-forged :
      (topic : String) (bytes : w.Bytes) (now : ℕ) (g : Gossip) (e : GossipEnvelope)
      → w.from_binary bytes ≡ some e
      → is_genuine w e ≡ false
      → handle_message w topic bytes now g ≡ (g, none)
  unfolding handle_message
  handle_message-forged topic bytes now g e is bad = rw (is, bad, handle_message) refl

  pub handle_message-genuine :
      (topic : String) (bytes : w.Bytes) (now : ℕ) (g : Gossip) (e : GossipEnvelope)
      → w.from_binary bytes ≡ some e
      → is_genuine w e ≡ true
      → handle_message w topic bytes now g
        ≡ ((accept w topic now e g).0, some (accept w topic now e g).1)
  unfolding handle_message
  handle_message-genuine topic bytes now g e is ok = rw (is, ok, handle_message) refl

  -- A message that is not forwarded leaves no trace: neither the counter nor the statistics change,
  -- whether its bytes are no envelope, its key or signature have a wrong length, or the signature is
  -- not the sender's.
  pub handle_message-none :
      (topic : String) (bytes : w.Bytes) (now : ℕ) (g : Gossip)
      → (handle_message w topic bytes now g).1 ≡ none
      → (handle_message w topic bytes now g).0 ≡ g
  handle_message-none topic bytes now g h = elim (Option-cases (w.from_binary bytes)) [
    | inl bad ↦
        ap (λ (r : Gossip × Option GossipMessage). r.0)
          (handle_message-unreadable topic bytes now g bad)
    | inr (e, is) ↦ elim (Bool-cases (is_genuine w e)) [
      | inl ok ↦ absurd (
          some-none _ (
            sym (
              ap (λ (r : Gossip × Option GossipMessage). r.1)
                (handle_message-genuine topic bytes now g e is ok))
            ∙ h))
      | inr bad ↦
          ap (λ (r : Gossip × Option GossipMessage). r.0)
            (handle_message-forged topic bytes now g e is bad)
    ]
  ]

  -- What is forwarded is an envelope that the bytes encode, signed over all of its other fields with
  -- the key of the sender that it names.
  pub handle_message-some :
      (topic : String) (bytes : w.Bytes) (now : ℕ) (g : Gossip) (m : GossipMessage)
      → (handle_message w topic bytes now g).1 ≡ some m
      → (e : GossipEnvelope) × ((w.from_binary bytes ≡ some e)
          × ((w.verify e.signature (w.to_binary (for_signing e)) e.sender_pubkey ≡ true)
              × ((m.sender_pubkey ≡ e.sender_pubkey)
                  × ((m.topic ≡ e.topic) × (m.payload ≡ e.payload)))))
  unfolding accept is_genuine
  handle_message-some topic bytes now g m h = elim (Option-cases (w.from_binary bytes)) [
    | inl bad ↦ absurd (
        some-none m (
          sym h
          ∙ ap (λ (r : Gossip × Option GossipMessage). r.1)
              (handle_message-unreadable topic bytes now g bad)))
    | inr (e, is) ↦ elim (Bool-cases (is_genuine w e)) [
      | inl ok ↦
          let same : (accept w topic now e g).1 ≡ m = some_injective (
            sym (
              ap (λ (r : Gossip × Option GossipMessage). r.1)
                (handle_message-genuine topic bytes now g e is ok))
            ∙ h) in
          (
            e,
            (
              is,
              (
                ground (arith, ok),
                (
                  sym (ap (λ (n : GossipMessage). n.sender_pubkey) same),
                  (
                    sym (ap (λ (n : GossipMessage). n.topic) same),
                    sym (ap (λ (n : GossipMessage). n.payload) same),
                  ),
                ),
              ),
            ),
          )
      | inr bad ↦ absurd (
          some-none m (
            sym h
            ∙ ap (λ (r : Gossip × Option GossipMessage). r.1)
                (handle_message-forged topic bytes now g e is bad)))
    ]
  ]

  envelope-is_genuine :
      (topic : String) (message_type : ℕ) (payload secret : Buffer) (now counter : ℕ)
      → is_genuine w
          (envelope w topic message_type payload (w.public_key secret) secret now counter)
        ≡ true
  unfolding envelope is_genuine
  envelope-is_genuine topic message_type payload secret now counter =
      let e : GossipEnvelope = record {
        sender_pubkey = [];
        signature = [];
        topic = topic;
        message_type = message_type;
        timestamp = now;
        sequence_hint = counter;
        payload = payload;
      } in
      ground (
        arith,
        w.length-public_key secret,
        w.length-sign (w.to_binary e) secret,
        w.verify-sign (w.to_binary e) secret,
      )

  -- What a subscriber forwards of a message that was published.
  abbrev pub delivered : GossipEnvelope → GossipMessage
  delivered e = record {
    sender_pubkey = e.sender_pubkey;
    signature = e.signature;
    topic = e.topic;
    message_type = e.message_type;
    timestamp = e.timestamp;
    sequence_hint = e.sequence_hint;
    payload = e.payload;
  }

  handle_message-to_binary :
      (heard_on : String) (later : ℕ) (e : GossipEnvelope) (receiver : Gossip)
      → FitsWire e
      → is_genuine w e ≡ true
      → e.timestamp ≤ 2 ^ 53
      → e.sequence_hint < 2 ^ 53
      → receiver.lamport_counter < 2 ^ 53
      → ((handle_message w heard_on (w.to_binary e) later receiver).1 ≡ some (delivered e))
        × ((handle_message w heard_on (w.to_binary e) later receiver).0.lamport_counter
            ≡ max receiver.lamport_counter e.sequence_hint + 1)
  unfolding accept
  handle_message-to_binary heard_on later e receiver fits ok time hint below =
      rw
        (
          handle_message-genuine heard_on (w.to_binary e) later receiver e
              (w.from_binary-to_binary e fits) ok,
          to_number_id e.timestamp time,
          to_number_id e.sequence_hint (omega arith),
        )
        (refl, to_number_id (max receiver.lamport_counter e.sequence_hint + 1) (omega arith))

  -- A message that is published, and whose envelope is not too large, is forwarded by every handler that
  -- receives its bytes, with the sender's key, the same topic, type, payload and time, and a hint one
  -- above the sender's counter; the receiver's counter is then one above the greater of that hint and
  -- its own. The key is that of the signature, the type and the time fit the wire, and the hint and the
  -- receiver's counter are below 2^53.
  pub handle_message-publish_message :
      (topic heard_on : String) (message_type : ℕ) (payload secret : Buffer) (now later : ℕ)
      (sender receiver : Gossip)
      → message_type < 2 ^ 31
      → now ≤ 2 ^ 53
      → sender.lamport_counter + 1 < 2 ^ 53
      → receiver.lamport_counter < 2 ^ 53
      → let e =
          envelope w topic message_type payload
            (w.public_key secret)
            secret
            now
            (sender.lamport_counter + 1) in
        validate_envelope_size w (w.to_binary e) ≡ true
        → let e =
            envelope w topic message_type payload
              (w.public_key secret)
              secret
              now
              (sender.lamport_counter + 1) in
          ((publish_message w topic message_type payload (w.public_key secret) secret now sender).1
            ≡ some (w.to_binary e))
          × (((handle_message w heard_on (w.to_binary e) later receiver).1 ≡ some (delivered e))
              × ((handle_message w heard_on (w.to_binary e) later receiver).0.lamport_counter
                  ≡ max receiver.lamport_counter (sender.lamport_counter + 1) + 1))
  unfolding publish_message envelope
  handle_message-publish_message topic heard_on message_type payload secret now later sender
        receiver t n sc rc small =
      (
        rw (to_number_id (sender.lamport_counter + 1) (omega arith), small) refl,
        handle_message-to_binary heard_on later _ receiver
            (record { message_type = t; timestamp = omega arith; sequence_hint = omega arith })
            (envelope-is_genuine topic message_type payload secret now (sender.lamport_counter + 1))
            n sc rc,
      )

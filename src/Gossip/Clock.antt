-- ===== src/Gossip/Clock.antt =====
-- The Lamport counter over time (p2p/gossipsub.ts).
use united.Prelude.{
  ℕ, ◌+◌, ◌^◌, ◌<◌, ◌≤◌, ◌≡◌, ◌∙◌, refl, sym, ap, max, String, true, inl, inr, Bool-cases, List, [],
  ◌∷◌, All, none, some, arith,
}
use united.Blocks.Types.{Buffer}
use united.Gossip.Number.{to_number, to_number_id, to_number_tie}
use united.Gossip.Topic.{
  GossipEnvelope, Wire, Gossip, initial, subscribe_to_channel, unsubscribe_from_channel, envelope,
  validate_envelope_size, publish_message, is_genuine, accept, handle_message,
}
use united.Gossip.Delivery.{handle_message-none, handle_message-genuine}

module _ (w : Wire) where
  -- What a node does from its start to its shutdown, with the hints of the envelopes that it published and
  -- accepted; a message that is too large is refused and raises the counter. The counter and the hints
  -- stay below 2^53, and types and times fit the wire.
  pub data History : List ℕ → Gossip → Type 0 where
    start : History [] initial
    publishes :
        {hints : List ℕ} {g : Gossip} (topic : String) (message_type : ℕ)
        (payload public_key secret_key : Buffer) (now : ℕ) (bytes : w.Bytes) (e : GossipEnvelope)
        → History hints g
        → message_type < 2 ^ 31
        → now < 2 ^ 64
        → g.lamport_counter + 1 < 2 ^ 53
        → (publish_message w topic message_type payload public_key secret_key now g).1 ≡ some bytes
        → w.from_binary bytes ≡ some e
        → History
            (e.sequence_hint ∷ hints)
            (publish_message w topic message_type payload public_key secret_key now g).0
    refuses :
        {hints : List ℕ} {g : Gossip} (topic : String) (message_type : ℕ)
        (payload public_key secret_key : Buffer) (now : ℕ)
        → History hints g
        → g.lamport_counter + 1 < 2 ^ 53
        → (publish_message w topic message_type payload public_key secret_key now g).1 ≡ none
        → History hints (publish_message w topic message_type payload public_key secret_key now g).0
    receives :
        {hints : List ℕ} {g : Gossip} (topic : String) (bytes : w.Bytes) (now : ℕ)
        (e : GossipEnvelope)
        → History hints g
        → w.from_binary bytes ≡ some e
        → is_genuine w e ≡ true
        → max g.lamport_counter e.sequence_hint + 1 < 2 ^ 53
        → History (e.sequence_hint ∷ hints) (handle_message w topic bytes now g).0
    discards :
        {hints : List ℕ} {g : Gossip} (topic : String) (bytes : w.Bytes) (now : ℕ)
        → History hints g
        → (handle_message w topic bytes now g).1 ≡ none
        → History hints (handle_message w topic bytes now g).0
    subscribes :
        {hints : List ℕ} {g : Gossip} (channel_id server_fingerprint : String)
        → History hints g
        → History hints (subscribe_to_channel channel_id server_fingerprint g)
    unsubscribes :
        {hints : List ℕ} {g : Gossip} (channel_id server_fingerprint : String)
        → History hints g
        → History hints (unsubscribe_from_channel channel_id server_fingerprint g)

  All-≤ : {m n : ℕ} (hints : List ℕ) → m ≤ n → All (λ h. h ≤ m) hints → All (λ h. h ≤ n) hints
  All-≤ [] le a = a
  All-≤ (h ∷ hints) le (a, rest) = (omega arith, All-≤ hints le rest)

  All-< : {m n : ℕ} (hints : List ℕ) → m < n → All (λ h. h ≤ m) hints → All (λ h. h < n) hints
  All-< [] lt a = a
  All-< (h ∷ hints) lt (a, rest) = (omega arith, All-< hints lt rest)

  subscribe_to_channel-counter :
      (channel_id server_fingerprint : String) (g : Gossip)
      → (subscribe_to_channel channel_id server_fingerprint g).lamport_counter ≡ g.lamport_counter
  unfolding subscribe_to_channel
  subscribe_to_channel-counter channel_id server_fingerprint g = ground arith

  publish_message-counter :
      (topic : String) (message_type : ℕ) (payload public_key secret_key : Buffer) (now : ℕ)
      (g : Gossip)
      → g.lamport_counter + 1 < 2 ^ 53
      → (publish_message w topic message_type payload public_key secret_key now g).0.lamport_counter
        ≡ g.lamport_counter + 1
  unfolding publish_message
  publish_message-counter topic message_type payload public_key secret_key now g h =
      to_number_id (g.lamport_counter + 1) (omega arith)

  -- The hint of an envelope that was published, as a receiver decodes it.
  publish_message-hint :
      (topic : String) (message_type : ℕ) (payload public_key secret_key : Buffer) (now : ℕ)
      (g : Gossip) (bytes : w.Bytes) (e : GossipEnvelope) (n : ℕ)
      → message_type < 2 ^ 31
      → now < 2 ^ 64
      → n < 2 ^ 64
      → to_number (g.lamport_counter + 1) ≡ n
      → (publish_message w topic message_type payload public_key secret_key now g).1 ≡ some bytes
      → w.from_binary bytes ≡ some e
      → e.sequence_hint ≡ n
  unfolding publish_message envelope
  publish_message-hint topic message_type payload public_key secret_key now g bytes e n t time fits
        is sent read =
      let published = envelope w topic message_type payload public_key secret_key now n in
      elim (Bool-cases (validate_envelope_size w (w.to_binary published))) [
        | inl small ↦
            let out : (publish_message w topic message_type payload public_key secret_key now g).1
                ≡ some (w.to_binary published) =
              rw (publish_message, is, small) refl in
            let same : w.to_binary published ≡ bytes = cc in
            let decoded : w.from_binary (w.to_binary published) ≡ some published =
              w.from_binary-to_binary published
                (record { message_type = t; timestamp = time; sequence_hint = fits }) in
            let one : published ≡ e = cc in sym (ap (λ (x : GossipEnvelope). x.sequence_hint) one)
        | inr large ↦
            let out : (publish_message w topic message_type payload public_key secret_key now g).1
                ≡ none =
              rw (publish_message, is, large) refl in
            absurd (cc)
      ]

  handle_message-counter :
      (topic : String) (bytes : w.Bytes) (now : ℕ) (e : GossipEnvelope) (g : Gossip)
      → w.from_binary bytes ≡ some e
      → is_genuine w e ≡ true
      → max g.lamport_counter e.sequence_hint + 1 < 2 ^ 53
      → (handle_message w topic bytes now g).0.lamport_counter
        ≡ max g.lamport_counter e.sequence_hint + 1
  unfolding accept
  handle_message-counter topic bytes now e g is ok h =
      rw
        (
          handle_message-genuine w topic bytes now g e is ok,
          to_number_id e.sequence_hint (omega arith),
        )
        (to_number_id (max g.lamport_counter e.sequence_hint + 1) (omega arith))

  History-bounded :
      {hints : List ℕ} {g : Gossip} → History hints g → All (λ h. h ≤ g.lamport_counter) hints
  unfolding unsubscribe_from_channel
  History-bounded start = tt
  History-bounded
        (publishes {hints} {g} topic t payload pk sk now bytes e r fits time h sent read) =
      let eq = publish_message-counter topic t payload pk sk now g h in
      let hint =
        publish_message-hint topic t payload pk sk now g bytes e (g.lamport_counter + 1) fits time
          (omega arith) (to_number_id (g.lamport_counter + 1) (omega arith)) sent read in
      (omega (arith, eq, hint), All-≤ hints (omega (arith, eq)) (History-bounded r))
  History-bounded (refuses {hints} {g} topic t payload pk sk now r h refused) =
      All-≤ hints (omega (arith, publish_message-counter topic t payload pk sk now g h))
        (History-bounded r)
  History-bounded (receives {hints} {g} topic bytes now e r is ok h) =
      let eq = handle_message-counter topic bytes now e g is ok h in
      (omega (arith, eq), All-≤ hints (omega (arith, eq)) (History-bounded r))
  History-bounded (discards {hints} {g} topic bytes now r h) =
      let eq = ap (λ (x : Gossip). x.lamport_counter) (handle_message-none w topic bytes now g h) in
      All-≤ hints (omega (arith, eq)) (History-bounded r)
  History-bounded (subscribes {hints} {g} c f r) =
      All-≤ hints (omega (arith, subscribe_to_channel-counter c f g)) (History-bounded r)
  History-bounded (unsubscribes {hints} {g} c f r) = History-bounded r

  -- The clock condition: as long as the hints stay below 2^53, the envelope that a node publishes has a
  -- hint greater than that of every envelope that it published or accepted since its start, whatever it
  -- refused, discarded or subscribed to meanwhile. The type and the time fit the wire.
  pub publish_message-History :
      {hints : List ℕ} {g : Gossip} (topic : String) (message_type : ℕ)
      (payload public_key secret_key : Buffer) (now : ℕ) (bytes : w.Bytes) (e : GossipEnvelope)
      → History hints g
      → message_type < 2 ^ 31
      → now < 2 ^ 64
      → g.lamport_counter + 1 < 2 ^ 53
      → (publish_message w topic message_type payload public_key secret_key now g).1 ≡ some bytes
      → w.from_binary bytes ≡ some e
      → All (λ h. h < e.sequence_hint) hints
  publish_message-History {hints} {g} topic message_type payload public_key secret_key now bytes e r
        fits time h sent read =
      let hint =
        publish_message-hint topic message_type payload public_key secret_key now g bytes e
          (g.lamport_counter + 1) fits time (omega arith)
          (to_number_id (g.lamport_counter + 1) (omega arith)) sent read in
      All-< hints (omega (arith, hint)) (History-bounded r)

  -- What a node with the state `g` does as long as no hint above 2^53 comes in.
  pub data Later (g : Gossip) : Gossip → Type 0 where
    stays : Later g g
    publishes :
        {h : Gossip} (topic : String) (message_type : ℕ) (payload public_key secret_key : Buffer)
        (now : ℕ)
        → Later g h
        → Later g (publish_message w topic message_type payload public_key secret_key now h).0
    receives :
        {h : Gossip} (topic : String) (bytes : w.Bytes) (now : ℕ) (e : GossipEnvelope)
        → Later g h
        → w.from_binary bytes ≡ some e
        → is_genuine w e ≡ true
        → e.sequence_hint ≤ 2 ^ 53
        → Later g (handle_message w topic bytes now h).0
    discards :
        {h : Gossip} (topic : String) (bytes : w.Bytes) (now : ℕ)
        → Later g h
        → (handle_message w topic bytes now h).1 ≡ none
        → Later g (handle_message w topic bytes now h).0

  -- A counter at 2^53 stays there.
  accept-stuck :
      (topic : String) (now : ℕ) (e : GossipEnvelope) (g : Gossip)
      → max g.lamport_counter e.sequence_hint ≡ 2 ^ 53
      → (accept w topic now e g).0.lamport_counter ≡ 2 ^ 53
  unfolding accept
  accept-stuck topic now e g top =
      rw (to_number_id e.sequence_hint (omega (arith, top)), top) to_number_tie

  publish_message-stays :
      (topic : String) (message_type : ℕ) (payload public_key secret_key : Buffer) (now : ℕ)
      (g : Gossip)
      → g.lamport_counter ≡ 2 ^ 53
      → (publish_message w topic message_type payload public_key secret_key now g).0.lamport_counter
        ≡ 2 ^ 53
  unfolding publish_message
  publish_message-stays topic message_type payload public_key secret_key now g e =
      rw (e) to_number_tie

  Later-stuck : {g h : Gossip} → g.lamport_counter ≡ 2 ^ 53 → Later g h → h.lamport_counter ≡ 2 ^ 53
  Later-stuck top stays = top
  Later-stuck top (publishes {h} topic t payload pk sk now l) =
      publish_message-stays topic t payload pk sk now h (Later-stuck top l)
  Later-stuck top (receives {h} topic bytes now e l is ok below) =
      let at : h.lamport_counter ≡ 2 ^ 53 = Later-stuck top l in
      rw (handle_message-genuine w topic bytes now h e is ok)
        (accept-stuck topic now e h (omega (arith, at, below)))
  Later-stuck top (discards {h} topic bytes now l gone) =
      ap (λ (x : Gossip). x.lamport_counter) (handle_message-none w topic bytes now h gone)
      ∙ Later-stuck top l

  -- One genuine message with the hint 2^53 stops the clock: after a node has accepted it, with a counter
  -- that is not greater, every envelope that it publishes has the hint 2^53, whatever it publishes,
  -- discards and accepts meanwhile, as long as no hint above 2^53 is accepted. The types and the times of
  -- what it publishes fit the wire.
  pub publish_message-stuck :
      (topic heard_on : String) (message_type : ℕ) (payload public_key secret_key : Buffer)
      (heard bytes : w.Bytes) (now later : ℕ) (poison e : GossipEnvelope) (g h : Gossip)
      → w.from_binary heard ≡ some poison
      → is_genuine w poison ≡ true
      → poison.sequence_hint ≡ 2 ^ 53
      → g.lamport_counter ≤ 2 ^ 53
      → Later (handle_message w heard_on heard now g).0 h
      → message_type < 2 ^ 31
      → later < 2 ^ 64
      → (publish_message w topic message_type payload public_key secret_key later h).1 ≡ some bytes
      → w.from_binary bytes ≡ some e
      → e.sequence_hint ≡ 2 ^ 53
  publish_message-stuck topic heard_on message_type payload public_key secret_key heard bytes now
        later poison e g h is ok hint below since t time sent read =
      let stopped : (handle_message w heard_on heard now g).0.lamport_counter ≡ 2 ^ 53 =
        rw (handle_message-genuine w heard_on heard now g poison is ok)
          (accept-stuck heard_on now poison g (omega (arith, hint, below))) in
      let tie : to_number (h.lamport_counter + 1) ≡ 2 ^ 53 =
        rw (Later-stuck stopped since) to_number_tie in
      publish_message-hint topic message_type payload public_key secret_key later h bytes e (2 ^ 53)
        t time (omega arith) tie sent read

-- ===== src/Gossip/Topic.antt =====
-- client/src/main/p2p/gossipsub.ts: topics, envelopes and the Lamport counter. Encoding of envelopes
-- (protobuf) and signatures (sodium-native) are parameters with their documented behaviour. What is
-- published and received stands for the calls of libp2p; a time is in milliseconds.
use Prim.Native.String.{◌++◌ as concat, slice, len}
use united.Prelude.{
  ℕ, ◌+◌, ◌*◌, ◌^◌, ◌<◌, ◌≡◌, min, max, ltb, ◌==◌, String, Bool, true, not, ◌&&◌, List, [], ◌∷◌,
  map, length, Option, none, some, if◌then◌else◌,
}
use united.Prelude.Dict.{Dict, lookup, insert, erase}
use united.Blocks.Types.{Buffer}
use united.Gossip.Number.{to_number}

-- The message `GossipEnvelope`; a message type is the number of the enum.
pub record GossipEnvelope : Type 0 where
  pub sender_pubkey : Buffer
  pub signature : Buffer
  pub topic : String
  pub message_type : ℕ
  pub timestamp : ℕ
  pub sequence_hint : ℕ
  pub payload : Buffer

-- The numbers of an envelope fit the fields of the wire format.
pub record FitsWire (e : GossipEnvelope) : Type 0 where
  pub message_type : e.message_type < 2 ^ 31
  pub timestamp : e.timestamp < 2 ^ 64
  pub sequence_hint : e.sequence_hint < 2 ^ 64

-- `toBinary`, and `fromBinary` with `none` for bytes that it refuses, where `Bytes` is what an envelope
-- is encoded as and `size` its length; Ed25519 signatures.
pub record Wire : Type 1 where
  pub Bytes : Type 0
  pub size : Bytes → ℕ
  pub to_binary : GossipEnvelope → Bytes
  pub from_binary : Bytes → Option GossipEnvelope
  pub sign : Bytes → Buffer → Buffer
  pub verify : Buffer → Bytes → Buffer → Bool
  pub public_key : Buffer → Buffer
  pub from_binary-to_binary : (e : GossipEnvelope) → FitsWire e → from_binary (to_binary e) ≡ some e
  pub verify-sign :
      (bytes : Bytes) (secret : Buffer)
      → verify (sign bytes secret) bytes (public_key secret) ≡ true
  pub length-sign : (bytes : Bytes) (secret : Buffer) → length (sign bytes secret) ≡ 64
  pub length-public_key : (secret : Buffer) → length (public_key secret) ≡ 32

pub record TopicStats : Type 0 where
  pub topic : String
  pub message_count : ℕ
  pub last_received : Option ℕ

-- `lamportCounter` and `topicStatsMap`.
pub record Gossip : Type 0 where
  pub lamport_counter : ℕ
  pub topic_stats : Dict TopicStats

unfoldable pub initial : Gossip
initial = record { lamport_counter = 0; topic_stats = [] }

-- The first 16 characters, which are bytes of a fingerprint.
unfoldable pub compute_topic : String → String → String
compute_topic server_fingerprint channel_id =
    concat (slice server_fingerprint 0 (min 16 (len server_fingerprint))) (concat "/" channel_id)

unfoldable pub subscribe_to_channel : String → String → Gossip → Gossip
subscribe_to_channel channel_id server_fingerprint g =
    let topic = compute_topic server_fingerprint channel_id in
    elim (lookup topic g.topic_stats) [
      | some stats ↦ g
      | none ↦ record g {
        topic_stats =
            insert topic (record { topic = topic; message_count = 0; last_received = none })
              g.topic_stats;
      }
    ]

unfoldable pub subscribe_to_channels : List String → String → Gossip → Gossip
subscribe_to_channels [] server_fingerprint g = g
subscribe_to_channels (channel_id ∷ ids) server_fingerprint g =
    subscribe_to_channels ids server_fingerprint
      (subscribe_to_channel channel_id server_fingerprint g)

unfoldable pub unsubscribe_from_channel : String → String → Gossip → Gossip
unsubscribe_from_channel channel_id server_fingerprint g = record g {
  topic_stats = erase (compute_topic server_fingerprint channel_id) g.topic_stats;
}

unfoldable pub get_topic_stats : Gossip → List TopicStats
get_topic_stats g = map (λ (e : String × TopicStats). e.1) g.topic_stats

unfoldable pub clear_topic_stats : Gossip → Gossip
clear_topic_stats g = record { lamport_counter = 0; topic_stats = [] }

abbrev pub max_envelope_size : ℕ
max_envelope_size = 60 * 1024

pub record GossipMessage : Type 0 where
  pub sender_pubkey : Buffer
  pub signature : Buffer
  pub topic : String
  pub message_type : ℕ
  pub timestamp : ℕ
  pub sequence_hint : ℕ
  pub payload : Buffer

-- The envelope that is signed: without the sender and the signature.
abbrev pub for_signing : GossipEnvelope → GossipEnvelope
for_signing e = record e { sender_pubkey = []; signature = [] }

-- `stats.messageCount++`, `stats.lastReceived = Date.now()`, for a topic that is subscribed to.
unfoldable pub count_message : String → ℕ → Dict TopicStats → Dict TopicStats
count_message topic now d = elim (lookup topic d) [
  | none ↦ d
  | some stats ↦
      insert topic
        (record stats { message_count = stats.message_count + 1; last_received = some now }) d
]

module _ (w : Wire) where
  -- `validateEnvelopeSize`: `false` is an error.
  unfoldable pub validate_envelope_size : w.Bytes → Bool
  validate_envelope_size encoded = not (ltb max_envelope_size (w.size encoded))

  -- The envelope that is published, from the counter.
  unfoldable pub envelope : String → ℕ → Buffer → Buffer → Buffer → ℕ → ℕ → GossipEnvelope
  envelope topic message_type payload public_key secret_key now counter =
      let e : GossipEnvelope = record {
        sender_pubkey = [];
        signature = [];
        topic = topic;
        message_type = message_type;
        timestamp = now;
        sequence_hint = counter;
        payload = payload;
      } in
      record e { sender_pubkey = public_key; signature = w.sign (w.to_binary e) secret_key }

  -- The state, and the bytes that go to the topic; `none` is an error.
  unfoldable pub publish_message :
      String → ℕ → Buffer → Buffer → Buffer → ℕ → Gossip → Gossip × Option w.Bytes
  publish_message topic message_type payload public_key secret_key now g =
      let counter = to_number (g.lamport_counter + 1) in
      let encoded =
        w.to_binary (envelope topic message_type payload public_key secret_key now counter) in
      (
        record g { lamport_counter = counter },
        if validate_envelope_size encoded then some encoded else none,
      )

  -- An envelope that is signed by its sender.
  unfoldable pub is_genuine : GossipEnvelope → Bool
  is_genuine e =
      (length e.sender_pubkey == 32 && length e.signature == 64)
      && w.verify e.signature (w.to_binary (for_signing e)) e.sender_pubkey

  unfoldable pub accept : String → ℕ → GossipEnvelope → Gossip → Gossip × GossipMessage
  accept topic now e g =
      let received_hint = to_number e.sequence_hint in
      (
        record {
          lamport_counter = to_number (max g.lamport_counter received_hint + 1);
          topic_stats = count_message topic now g.topic_stats;
        },
        record {
          sender_pubkey = e.sender_pubkey;
          signature = e.signature;
          topic = e.topic;
          message_type = e.message_type;
          timestamp = to_number e.timestamp;
          sequence_hint = received_hint;
          payload = e.payload;
        },
      )

  -- The handler: the message that is forwarded, if it is. A signature is verified with a key and a
  -- signature of the right lengths only.
  unfoldable pub handle_message : String → w.Bytes → ℕ → Gossip → Gossip × Option GossipMessage
  handle_message topic bytes now g = elim (w.from_binary bytes) [
    | none ↦ (g, none)
    | some e ↦
        if is_genuine e then (let (g', m) = accept topic now e g in (g', some m)) else (g, none)
  ]

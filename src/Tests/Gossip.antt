-- ===== src/Tests/Gossip.antt =====
-- Runs of gossip: envelopes that are their own encoding, and signatures of zeros.
use united.Prelude.{
  ◌+◌, ◌^◌, ◌<◌, ◌≡◌, refl, max, true, false, [], ◌∷◌, length, none, some, All, arith,
}
use united.Blocks.Types.{Buffer}
use united.Blocks.Store.{returns, get_local_block}
use united.Gossip.Number.{to_number}
use united.Gossip.Topic.{
  GossipEnvelope, Wire, Gossip, accept, initial, envelope, publish_message, validate_envelope_size,
  handle_message, is_genuine,
}
use united.Gossip.Delivery.{delivered, handle_message-none, handle_message-publish_message}
use united.Gossip.Clock.{
  History, start, Later, stays, publish_message-History, publish_message-stuck,
}
use united.Gossip.Content.{
  BlockRef, prepare_content_for_gossip, get_local_block-prepare_content_for_gossip,
}
use united.Tests.Platform.{plain_platform}
use united.Tests.Blocks.{zeros, length-zeros, empty_store}

abbrev plain_wire : Wire
plain_wire = record {
  Bytes = GossipEnvelope;
  size = λ e. length e.payload;
  to_binary = λ e. e;
  from_binary = λ e. some e;
  sign = λ e secret. zeros 64;
  verify = λ signature e key. true;
  public_key = λ secret. zeros 32;
  from_binary-to_binary = λ e fits. refl;
  verify-sign = λ e secret. refl;
  length-sign = λ e secret. length-zeros 64;
  length-public_key = λ secret. length-zeros 32;
}

-- An envelope without a sender.
abbrev unsigned : GossipEnvelope
unsigned = record {
  sender_pubkey = [];
  signature = [];
  topic = "f/lounge";
  message_type = 1;
  timestamp = 5;
  sequence_hint = 9;
  payload = 7 ∷ [];
}

unsigned-discarded : (handle_message plain_wire "f/lounge" unsigned 10 initial).1 ≡ none
unfolding handle_message is_genuine
unsigned-discarded = refl

handle_message-none_example : (handle_message plain_wire "f/lounge" unsigned 10 initial).0 ≡ initial
handle_message-none_example =
    handle_message-none plain_wire "f/lounge" unsigned 10 initial unsigned-discarded

-- The same with a key and a signature, and the greatest hint that is a number of JavaScript.
abbrev late : GossipEnvelope
late = record unsigned { sender_pubkey = zeros 32; signature = zeros 64; sequence_hint = 2 ^ 53 }

handle_message-publish_message_example :
    let e = envelope plain_wire "f/lounge" 1 (7 ∷ []) (zeros 32) [] 5 (0 + 1) in
    ((publish_message plain_wire "f/lounge" 1 (7 ∷ []) (zeros 32) [] 5 initial).1 ≡ some e)
    × (((handle_message plain_wire "f/lounge" e 10 initial).1 ≡ some (delivered plain_wire e))
        × ((handle_message plain_wire "f/lounge" e 10 initial).0.lamport_counter
            ≡ max 0 (0 + 1) + 1))
unfolding initial validate_envelope_size envelope
handle_message-publish_message_example =
    handle_message-publish_message plain_wire "f/lounge" "f/lounge" 1 (7 ∷ []) [] 5 10 initial
      initial (ground arith) (ground arith) (ground arith) (ground arith) refl

abbrev first_out : GossipEnvelope
first_out = envelope plain_wire "f/lounge" 1 (7 ∷ []) (zeros 32) [] 5 1

first_out-sent :
    (publish_message plain_wire "f/lounge" 1 (7 ∷ []) (zeros 32) [] 5 initial).1 ≡ some first_out
unfolding initial publish_message to_number validate_envelope_size envelope
first_out-sent = refl

abbrev one_published : Gossip
one_published = (publish_message plain_wire "f/lounge" 1 (7 ∷ []) (zeros 32) [] 5 initial).0

one_sent : History plain_wire (first_out.sequence_hint ∷ []) one_published
unfolding initial
one_sent =
    History.publishes "f/lounge" 1 (7 ∷ []) (zeros 32) [] 5 first_out first_out start (ground arith)
      (ground arith) (ground arith) first_out-sent refl

one_sent-below : one_published.lamport_counter + 1 < 2 ^ 53
unfolding initial publish_message to_number
one_sent-below = ground arith

abbrev second_out : GossipEnvelope
second_out = envelope plain_wire "f/lounge" 1 [] (zeros 32) [] 6 2

second_out-sent :
    (publish_message plain_wire "f/lounge" 1 [] (zeros 32) [] 6 one_published).1 ≡ some second_out
unfolding initial publish_message to_number validate_envelope_size envelope
second_out-sent = refl

publish_message-History_example :
    All (λ h. h < second_out.sequence_hint) (first_out.sequence_hint ∷ [])
publish_message-History_example =
    publish_message-History plain_wire "f/lounge" 1 [] (zeros 32) [] 6 second_out second_out
      one_sent (ground arith) (ground arith) one_sent-below second_out-sent refl

late-is_genuine : is_genuine plain_wire late ≡ true
unfolding is_genuine
late-is_genuine = refl

abbrev stopped : Gossip
stopped = (handle_message plain_wire "f/lounge" late 10 initial).0

-- The second message after the clock has stopped.
abbrev published_once : Gossip
published_once = (publish_message plain_wire "f/lounge" 1 [] (zeros 32) [] 11 stopped).0

abbrev stuck_out : GossipEnvelope
stuck_out = envelope plain_wire "f/lounge" 1 [] (zeros 32) [] 12 (2 ^ 53)

stuck_out-sent :
    (publish_message plain_wire "f/lounge" 1 [] (zeros 32) [] 12 published_once).1 ≡ some stuck_out
unfolding initial handle_message accept publish_message to_number validate_envelope_size is_genuine
    envelope
stuck_out-sent = refl

publish_message-stuck_example : stuck_out.sequence_hint ≡ 2 ^ 53
unfolding initial
publish_message-stuck_example =
    publish_message-stuck plain_wire "f/lounge" "f/lounge" 1 [] (zeros 32) [] late stuck_out 10 12
      late stuck_out initial published_once refl late-is_genuine refl (ground arith)
      (Later.publishes "f/lounge" 1 [] (zeros 32) [] 11 stays) (ground arith) (ground arith)
      stuck_out-sent refl

abbrev large : Buffer
large = zeros 51201

get_local_block-prepare_content_for_gossip_example :
    let r =
      prepare_content_for_gossip plain_platform large "a.bin" "text/plain" none 100 zeros
        empty_store in
    (ref : BlockRef) × ((r.1
        ≡ returns (record { inline = false; payload = []; block_ref = some ref }))
      × ((ref.size ≡ length large)
          × ((get_local_block plain_platform ref.hash 200 r.0).1 ≡ some large)))
get_local_block-prepare_content_for_gossip_example =
    get_local_block-prepare_content_for_gossip plain_platform large "a.bin" "text/plain" none 100
      200 zeros empty_store (7 ∷ []) (omega (arith, length-zeros 51201)) refl refl length-zeros

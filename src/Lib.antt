-- ===== src/Lib.antt =====
-- Verification of UNITED, a self-hosted community platform: the state of its desktop client.
--
-- The parts, and the files that model them:
--
--   * Chat: the chat store of the renderer (client/src/renderer/src/stores/messages.ts) keeps a
--     window of messages for each channel. Chat/Message is a message and what happens to one,
--     with the types of shared/types/ipc-bridge.ts; Chat/Slice has one function for each action
--     of the slice (loadMessages is load_start, load_done and load_failed, since other actions
--     run while a request is on its way; loadOlderMessages likewise); Chat/Events is the listener
--     of client/src/renderer/src/hooks/useMessages.ts. Chat/Entries adds the entries without
--     messages that a failed loadOlderMessages can leave, at which other actions throw.
--     Chat/Window, Chat/Loads and Chat/Reach are about the invariant of the windows, with a step
--     relation for all that happens to the store; Chat/History is about windows as sequences,
--     Chat/Tally and Chat/Reactions about reactions, Chat/Unread about unread counts.
--   * Blocks: the block store of the main process (client/src/main/blocks). Blocks/Types, Blocks/Crypto,
--     Blocks/Cache, Blocks/Store and Blocks/Tiers model the files of the same names: blocks encrypted
--     at rest, their rows in the table block_meta, the L0 cache, the eviction sweep and the expiry
--     check. Blocks/Seal is about encryption, Blocks/Sound, Blocks/Integrity and Blocks/RoundTrip about
--     content addressing, Blocks/Rows, Blocks/Evicts, Blocks/Eviction and Blocks/Expiry about the tiers,
--     Blocks/Keyed, Blocks/Deletion and Blocks/Reach about all that happens to the store.
--     Blocks/Protocol and Blocks/Cascade model the exchange with peers and the lookup through cache,
--     disk, peers, directory and server; Blocks/Resolve and Blocks/Exchange are about them.
--   * Voice: the voice slice of the renderer (client/src/renderer/src/stores/voice.ts). Voice/Slice has its
--     state and actions, Voice/Settings what is kept in the local storage, Voice/Mute is about mute,
--     deafen and the participants.
--   * Dm: the direct messages of the renderer (client/src/renderer/src/stores/dm.ts and the listener of
--     client/src/renderer/src/hooks/useDm.ts). Dm/Types has the state, Dm/Slice the actions, Dm/Events
--     the listener; Dm/Recent is about the order of the conversations, Dm/Window about the windows,
--     Dm/Unread about the counts, Dm/Valid and Dm/Reach about all that happens to the store.
--   * DmCrypto: end-to-end encryption of direct messages (client/src/main/ipc/dm-crypto.ts, with the
--     handlers that send and fetch in client/src/main/ipc/dm.ts and the one that receives in
--     client/src/main/ws/dm-events.ts). DmCrypto/Keys, DmCrypto/Secrets and DmCrypto/Messages model them;
--     DmCrypto/EndToEnd is about two users, DmCrypto/Fetches about keys that cannot be fetched.
--   * Presence: the presence slice of the renderer (client/src/renderer/src/stores/presence.ts).
--     Presence/Slice has its state, actions and timers, Presence/Typing is about the typing users.
--   * Ws: the WebSocket client of the main process (client/src/main/ws/client.ts). Ws/Client has one
--     function for each method and for each event of the socket and the timer, with the delays of
--     shared/types/ws-protocol.ts; Ws/Connected is about the states that it reaches, Ws/Backoff about
--     the delays, Ws/GiveUp about the end of the reconnection where the attempts are bounded.
--   * Ptt: push to talk (client/src/main/voice/ptt.ts). Ptt/Hook has the calls and the two handlers;
--     Ptt/Keys is about sequences of key events, Ptt/Life about starting and stopping.
--   * Mesh: the connections of a voice channel (client/src/renderer/src/voice/VoiceManager.ts). Mesh/Peer
--     is one connection and its queue of ICE candidates, Mesh/Manager has the operations, Mesh/Loops one
--     pass of the speaking loop and of the stats loop; Mesh/Candidates is about the queue, Mesh/Offers
--     about who makes the offer, Mesh/Polling about the loops.
--   * Gossip: messages over gossipsub (client/src/main/p2p/gossipsub.ts). Gossip/Number has the numbers
--     of JavaScript beyond 2^53, Gossip/Topic topics, envelopes and the Lamport counter, Gossip/Content
--     content that goes by reference to the block store; Gossip/Delivery is about what is published and
--     received, Gossip/Clock about the counter.
--   * Discovery: peers of the peer-to-peer network (client/src/main/p2p/discovery.ts). Discovery/Reconnect
--     has the attempts to reconnect, Discovery/Directory what is made of the directory;
--     Discovery/Attempts is about the end of the attempts.
--   * Roles and Channels: the slices of client/src/renderer/src/stores/roles.ts and channels.ts, in
--     Roles/Slice and Channels/Slice; Roles/Permissions is about the permissions of several roles,
--     Channels/Filed about the categories of the channels.
--   * Notify: desktop notifications (client/src/main/ipc/notifications.ts in Notify/Center, and
--     client/src/renderer/src/stores/notifications.ts in Notify/Slice); Notify/Twice is about the first
--     notification of a channel.
--   * Prelude: tests on numbers, lists, dictionaries (JavaScript objects and maps as association
--     lists), the order of texts, binary digits,
--     stable sorting and cutting (Array.prototype.sort and slice).
--   * Tests: concrete inputs, and each result applied to one.
--
-- A function of the source that changes shared state takes the state and returns it; what the server
-- answers, the time and the random bytes are arguments. Sequence numbers, sizes and times are natural
-- numbers, texts are strings, a buffer is the list of its bytes, and `null` or `undefined` is `none`.
-- Every loop is a recursion on a list, but for the rounding of a number to a double, which tries at most
-- twelve units and needs eleven for 64 bits.
--
-- Parameters, with their documented behaviour: the ciphers of sodium-native, SHA-256, and the cache of
-- the package lru-cache (Platform, Sodium, Cipher and LruPackage), JSON (Json), and the encoding and the
-- signatures of envelopes (Wire). What the browser, libp2p and the keyboard hook report is an argument.
--
-- Not modelled: the server (Rust), the user interface, the wire formats, the HTTP and IPC calls
-- themselves, key derivation, the zeroing of keys in memory, direct messages that are fetched after an
-- absence, the copies of direct messages in the block store, thumbnails, the timers that call the
-- sweep, the counters of the block exchange, the listeners of the WebSocket client, the peer-to-peer
-- node, the requests of its discovery, the audio pipeline, and the stores of the renderer that are not
-- named above.
pub mod Prelude
pub mod Chat
pub mod Blocks
pub mod Dm
pub mod DmCrypto
pub mod Voice
pub mod Presence
pub mod Ws
pub mod Ptt
pub mod Mesh
pub mod Gossip
pub mod Roles
pub mod Notify
pub mod Discovery
pub mod Channels
mod Tests

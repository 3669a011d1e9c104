-- ===== src/Tests.antt =====
-- Concrete inputs of the chat store and of the block store, and runs of the theorems on them.
mod Numbered
mod Chat
mod Platform
mod Blocks
mod Cascade
mod Voice
mod Dm
mod Presence
mod Ws
mod Ptt
mod Mesh
mod Gossip
mod Roles
mod Notify
mod Discovery
mod Channels
mod DmCrypto

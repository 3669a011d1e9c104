-- ===== src/Discovery.antt =====
-- Peer discovery and reconnection (client/src/main/p2p/discovery.ts).
pub mod Reconnect
pub mod Directory
pub mod Attempts

-- ===== src/Channels.antt =====
-- The channels of a server (client/src/renderer/src/stores/channels.ts).
pub mod Slice
pub mod Filed

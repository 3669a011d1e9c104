-- ===== src/Presence.antt =====
-- Presence and typing indicators (client/src/renderer/src/stores/presence.ts).
pub mod Slice
pub mod Typing

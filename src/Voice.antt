-- ===== src/Voice.antt =====
-- Voice channels in the client (client/src/renderer/src/stores/voice.ts).
pub mod Slice
pub mod Settings
pub mod Mute

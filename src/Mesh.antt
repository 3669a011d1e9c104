-- ===== src/Mesh.antt =====
-- The connections of a voice channel (client/src/renderer/src/voice/VoiceManager.ts).
pub mod Peer
pub mod Manager
pub mod Candidates
pub mod Offers
pub mod Loops
pub mod Polling

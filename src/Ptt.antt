-- ===== src/Ptt.antt =====
-- Push to talk (client/src/main/voice/ptt.ts).
pub mod Hook
pub mod Keys
pub mod Life

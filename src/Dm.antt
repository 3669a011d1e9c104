-- ===== src/Dm.antt =====
-- Direct messages in the client (client/src/renderer/src/stores/dm.ts, hooks/useDm.ts).
pub mod Types
pub mod Slice
pub mod Events
pub mod Recent
pub mod Window
pub mod Unread
pub mod Valid
pub mod Reach

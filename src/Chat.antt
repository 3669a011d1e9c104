-- ===== src/Chat.antt =====
-- The chat store of the renderer.
pub mod Message
pub mod Slice
pub mod Window
pub mod Events
pub mod Entries
pub mod Loads
pub mod Reach
pub mod Tally
pub mod Reactions
pub mod History
pub mod Unread

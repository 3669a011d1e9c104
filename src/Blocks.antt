-- ===== src/Blocks.antt =====
-- The content-addressed block store of the main process (client/src/main/blocks).
pub mod Types
pub mod Crypto
pub mod Seal
pub mod Cache
pub mod Store
pub mod Sound
pub mod Integrity
pub mod RoundTrip
pub mod Tiers
pub mod Rows
pub mod Evicts
pub mod Eviction
pub mod Expiry
pub mod Keyed
pub mod Deletion
pub mod Reach
pub mod Protocol
pub mod Cascade
pub mod Resolve
pub mod Exchange

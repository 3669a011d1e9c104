-- ===== src/Gossip.antt =====
-- Messages over gossipsub (client/src/main/p2p/gossipsub.ts).
pub mod Number
pub mod Topic
pub mod Delivery
pub mod Clock
pub mod Content

-- ===== src/DmCrypto.antt =====
-- End-to-end encryption of direct messages (client/src/main/ipc/dm-crypto.ts, with the handlers that
-- send and receive).
pub mod Keys
pub mod Secrets
pub mod Messages
pub mod EndToEnd
pub mod Fetches

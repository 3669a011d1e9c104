-- ===== src/Ws.antt =====
-- The WebSocket client and its reconnection (client/src/main/ws/client.ts, shared/types/ws-protocol.ts).
pub mod Client
pub mod Connected
pub mod Backoff
pub mod GiveUp

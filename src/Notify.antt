-- ===== src/Notify.antt =====
-- Desktop notifications (client/src/main/ipc/notifications.ts, client/src/renderer/src/stores/notifications.ts).
pub mod Center
pub mod Slice
pub mod Twice

-- ===== src/Roles.antt =====
-- Roles and permissions (client/src/renderer/src/stores/roles.ts).
pub mod Slice
pub mod Permissions

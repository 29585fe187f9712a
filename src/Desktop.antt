-- ===== src/Desktop.antt =====
-- The offline desktop application: clients/apps/desktop/src.
pub mod Recents
pub mod Files
pub mod Entries

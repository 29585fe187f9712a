-- ===== src/ApiClient.antt =====
-- The shared API client package: clients/packages/api-client/src.
pub mod Items
pub mod Portable
pub mod Fields
pub mod Remote
pub mod Sync
pub mod Accounts
pub mod Shares
pub mod Http
pub mod Settings

-- ===== src/Web.antt =====
-- The web application: clients/apps/web/src.
pub mod Health
pub mod Transfer
pub mod Biometric
pub mod SignIn
pub mod Emails
pub mod Awareness
pub mod Vault
pub mod Listing

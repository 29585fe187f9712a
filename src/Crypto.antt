-- ===== src/Crypto.antt =====
-- The shared crypto package: clients/packages/crypto/src.
pub mod Base64
pub mod EncString
pub mod Platform
pub mod Primitives
pub mod Account
pub mod Wordlist
pub mod Identifier
pub mod Envelope
pub mod Sharing
pub mod Vault
pub mod Backup
pub mod Totp
pub mod Generator
pub mod Password

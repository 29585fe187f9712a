-- ===== src/Crypto/Account.antt =====
-- clients/packages/crypto/src/account.ts: the account key hierarchy.
pub mod Keys
pub mod Items
pub mod Flows

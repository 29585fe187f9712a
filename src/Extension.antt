-- ===== src/Extension.antt =====
-- The browser extension: clients/apps/extension.
pub mod Protocol
pub mod Background
pub mod Hosts
pub mod Popup
pub mod Content
pub mod Responses

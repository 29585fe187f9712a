-- ===== src/Tests.antt =====
-- Tests of the definitions, and the theorems at concrete inputs.
mod Codec
mod Toy
mod Envelopes
mod Accounts
mod Worker
mod Server
mod Shells
mod Words
mod Passwords
mod Sharing
mod Otp
mod Files
mod Sync
mod Exports
mod Backend
mod Imports
mod Screens
mod Forms
mod Passkeys
mod Hosts

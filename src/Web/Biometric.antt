-- ===== src/Web/Biometric.antt =====
-- clients/apps/web/src/biometric.ts. The native plugin, whose credentials all stand under the one
-- server name, is the record `Plugin` over an abstract state of the device.
use passwd.Base.{Bool, true, false, Option, none, some, [], ◌∷◌, Text}
use passwd.Base.Outcome.{Result, ok, throw}

pub record Credentials : Type 0 where
  pub username : Text
  pub password : Text

pub record Plugin : Type 1 where
  pub Device : Type 0
  pub is_native : Bool
  pub is_available : Device → Result Bool × Device
  pub get_credentials : Device → Result (Option Credentials) × Device
  pub set_credentials : Credentials → Device → Result (Unit {0}) × Device
  pub verify_identity : Device → Result (Unit {0}) × Device
  pub delete_credentials : Device → Result (Unit {0}) × Device

module _ (plugin : Plugin) where
  open plugin use {Device}

  abbrev or_false : Result Bool → Bool
  or_false (ok b) = b
  or_false (throw e) = false

  unfoldable pub biometric_available : Device → Bool × Device
  biometric_available d = elim plugin.is_native [
    | false ↦ (false, d)
    | true ↦ let (r, d') = plugin.is_available d in (or_false r, d')
  ]

  -- `!!c?.password`
  abbrev has_password : Result (Option Credentials) → Bool
  has_password (ok (some c)) = elim c.password [ [] ↦ false | x ∷ s ↦ true ]
  has_password _ = false

  unfoldable pub biometric_enrolled : Device → Bool × Device
  biometric_enrolled d = elim plugin.is_native [
    | false ↦ (false, d)
    | true ↦ let (r, d') = plugin.get_credentials d in (has_password r, d')
  ]

  unfoldable pub enable_biometric : Text → Text → Device → Result (Unit {0}) × Device
  enable_biometric identifier password d = elim plugin.is_native [
    | false ↦ (ok tt, d)
    | true ↦ plugin.set_credentials (record { username = identifier; password = password }) d
  ]

  -- Credentials without a password are none.
  abbrev stored_credentials : Result (Option Credentials) → Option Credentials
  stored_credentials (ok (some c)) = elim c.password [ [] ↦ none | x ∷ s ↦ some c ]
  stored_credentials _ = none

  abbrev after_check : Result (Unit {0}) → Device → Option Credentials × Device
  after_check (throw e) d = (none, d)
  after_check (ok u) d = let (r, d') = plugin.get_credentials d in (stored_credentials r, d')

  unfoldable pub unlock_with_biometric : Device → Option Credentials × Device
  unlock_with_biometric d = elim plugin.is_native [
    | false ↦ (none, d)
    | true ↦ let (r, d') = plugin.verify_identity d in after_check r d'
  ]

  unfoldable pub disable_biometric : Device → Device
  disable_biometric d = elim plugin.is_native [ false ↦ d | true ↦ (plugin.delete_credentials d).1 ]

-- ===== src/Crypto/Account/Keys.antt =====
-- Deriving keys from passwords and recovery codes, and unwrapping what they wrap.
use passwd.Base.{ℕ, ◌++◌, Text, Bytes, codes, take}
use passwd.Base.Outcome.{Result, ok, ◌>>=◌}
use passwd.Crypto.Platform.{Platform}
use passwd.Crypto.Base64.{to_base64}
use passwd.Crypto.Identifier.{normalize_identifier}
use passwd.Crypto.Primitives.{KdfParams, derive_key, derive_pbkdf2, hkdf_expand, open_text}

pub record StretchedKey : Type 0 where
  pub enc_key : Bytes
  pub mac_key : Bytes

abbrev pub master_password_hash_domain : Text
master_password_hash_domain = codes "passwd.master-password-hash.v1:"

abbrev pub recovery_kdf_salt : Text
recovery_kdf_salt = codes "passwd.recovery.salt.v1"

abbrev pub recovery_kdf_iterations : ℕ
recovery_kdf_iterations = 100_000

pub record RecoveryKeys : Type 0 where
  pub recovery_enc_key : Bytes
  pub recovery_auth_hash : Text

pub record Unlocked : Type 0 where
  pub user_key : Bytes
  pub master_password_hash : Text

-- `itemKey`: the first half of the user key.
unfoldable pub item_key : Bytes → Bytes
item_key user_key = take 32 user_key

module _ (p : Platform) where
  unfoldable pub derive_master_key : Text → Text → KdfParams → Result Bytes
  derive_master_key master_password identifier params =
      derive_key p master_password (normalize_identifier p identifier) params

  unfoldable pub derive_master_password_hash : Bytes → Text → Result Text
  derive_master_password_hash master_key master_password = do
    let salt = p.utf8 (master_password_hash_domain ++ p.nfkc master_password)
    hash ← derive_pbkdf2 p master_key salt 1 32
    to_base64 hash

  unfoldable pub stretch_master_key : Bytes → Result StretchedKey
  stretch_master_key master_key = do
    enc ← hkdf_expand p master_key (codes "enc") 32
    mac ← hkdf_expand p master_key (codes "mac") 32
    ok (record { enc_key = enc; mac_key = mac })

  unfoldable pub unwrap_user_key : StretchedKey → Text → Result Bytes
  unwrap_user_key stretched protected_user_key = open_text p stretched.enc_key protected_user_key

  unfoldable pub unlock : Text → Text → KdfParams → Text → Result Unlocked
  unlock identifier master_password params protected_user_key = do
    master_key ← derive_master_key master_password identifier params
    stretched ← stretch_master_key master_key
    user_key ← unwrap_user_key stretched protected_user_key
    hash ← derive_master_password_hash master_key master_password
    ok (record { user_key = user_key; master_password_hash = hash })

  unfoldable pub derive_recovery_keys : Text → Result RecoveryKeys
  derive_recovery_keys recovery_code = do
    base ←
        derive_pbkdf2 p (p.utf8 (normalize_identifier p recovery_code)) (p.utf8 recovery_kdf_salt)
          recovery_kdf_iterations 32
    enc ← hkdf_expand p base (codes "recovery-enc") 32
    auth ← hkdf_expand p base (codes "recovery-auth") 32
    hash ← to_base64 auth
    ok (record { recovery_enc_key = enc; recovery_auth_hash = hash })

  unfoldable pub unwrap_user_key_with_recovery : Bytes → Text → Result Bytes
  unwrap_user_key_with_recovery recovery_enc_key recovery_protected_user_key =
      open_text p recovery_enc_key recovery_protected_user_key

-- ===== src/Crypto/Account/Flows.antt =====
-- Registration, and recovery of an account by its recovery code.
pub mod Unlocking
pub mod Recovery
use passwd.Base.{ℕ, Text, Bytes}
use passwd.Base.Outcome.{Result, ok}
use passwd.Base.Act.{Act, lift, pure, ◌>>=◌}
use passwd.Crypto.Identifier.{normalize_identifier}
use passwd.Crypto.Platform.{Platform}
use passwd.Crypto.Primitives.{KdfParams, random_bytes, seal_text}
use passwd.Crypto.Sharing.{UserKeypair, generate_user_keypair}
use passwd.Crypto.Account.Keys.{
  StretchedKey, RecoveryKeys, derive_master_key, derive_master_password_hash, stretch_master_key,
  derive_recovery_keys, unwrap_user_key_with_recovery,
}

abbrev pub user_key_bytes : ℕ
user_key_bytes = 64

pub record RegistrationBundle : Type 0 where
  pub identifier : Text
  pub kdf : KdfParams
  pub master_password_hash : Text
  pub protected_user_key : Text
  pub public_key : Text
  pub protected_private_key : Text

pub record Registration : Type 0 where
  pub bundle : RegistrationBundle
  pub user_key : Bytes

pub record RecoveryEnrollment : Type 0 where
  pub recovery_code : Text
  pub recovery_protected_user_key : Text
  pub recovery_auth_hash : Text

pub record RecoveryReset : Type 0 where
  pub recovery_auth_hash : Text
  pub master_password_hash : Text
  pub protected_user_key : Text
  pub kdf : KdfParams
  pub user_key : Bytes

unfoldable pub generate_user_key : Act Bytes
generate_user_key = random_bytes user_key_bytes

module _ (p : Platform) where
  unfoldable pub wrap_user_key : StretchedKey → Bytes → Act Text
  wrap_user_key stretched user_key = seal_text p stretched.enc_key user_key

  unfoldable pub build_registration : Text → Text → KdfParams → Act Registration
  build_registration identifier master_password params = do
    master_key ← lift (derive_master_key p master_password identifier params)
    stretched ← lift (stretch_master_key p master_key)
    user_key ← generate_user_key
    protected_user_key ← wrap_user_key stretched user_key
    hash ← lift (derive_master_password_hash p master_key master_password)
    keypair ← generate_user_keypair p user_key
    pure (record {
      bundle = record {
        identifier = normalize_identifier p identifier;
        kdf = params;
        master_password_hash = hash;
        protected_user_key = protected_user_key;
        public_key = keypair.public_key;
        protected_private_key = keypair.protected_private_key;
      };
      user_key = user_key;
    })

  unfoldable pub wrap_user_key_with_recovery : Bytes → Bytes → Act Text
  wrap_user_key_with_recovery recovery_enc_key user_key = seal_text p recovery_enc_key user_key

  -- `enrollRecovery`, once its code is drawn.
  unfoldable pub enroll_recovery_with : Text → Bytes → Act RecoveryEnrollment
  enroll_recovery_with recovery_code user_key = do
    keys ← lift (derive_recovery_keys p recovery_code)
    wrapped ← wrap_user_key_with_recovery keys.recovery_enc_key user_key
    pure (record {
      recovery_code = recovery_code;
      recovery_protected_user_key = wrapped;
      recovery_auth_hash = keys.recovery_auth_hash;
    })

  unfoldable pub complete_recovery : Text → Text → Text → Text → KdfParams → Act RecoveryReset
  complete_recovery recovery_code recovery_protected_user_key identifier new_master_password
        params =
      do
        keys ← lift (derive_recovery_keys p recovery_code)
        user_key ←
            lift (unwrap_user_key_with_recovery p keys.recovery_enc_key recovery_protected_user_key)
        master_key ← lift (derive_master_key p new_master_password identifier params)
        stretched ← lift (stretch_master_key p master_key)
        protected_user_key ← wrap_user_key stretched user_key
        hash ← lift (derive_master_password_hash p master_key new_master_password)
        pure (record {
          recovery_auth_hash = keys.recovery_auth_hash;
          master_password_hash = hash;
          protected_user_key = protected_user_key;
          kdf = params;
          user_key = user_key;
        })

-- ===== src/Crypto/Account/Flows/Recovery.antt =====
-- Enrolment in recovery, and its completion.
use passwd.Base.{◌≡◌, refl, arith, Text, Bytes, codes}
use passwd.Base.Outcome.{ok}
use passwd.Base.Act.{Entropy}
use passwd.Crypto.Base64.{encode_groups}
use passwd.Crypto.Base64.RoundTrip.{to_base64-bytes}
use passwd.Crypto.Identifier.{normalize_identifier}
use passwd.Crypto.Platform.{Platform, IsKey, Derived}
use passwd.Crypto.Primitives.{KdfParams, derive_pbkdf2}
use passwd.Crypto.Primitives.Derivation.{hkdf_expand-Derived}
use passwd.Crypto.Primitives.Sealing.{IsKey-ne-nil, seal_text-SealsText}
use passwd.Crypto.Account.Keys.{
  RecoveryKeys, recovery_kdf_salt, recovery_kdf_iterations, derive_master_key, derive_recovery_keys,
  unwrap_user_key_with_recovery, unlock,
}
use passwd.Crypto.Account.Flows.{
  RecoveryEnrollment, RecoveryReset, wrap_user_key_with_recovery, enroll_recovery_with,
  complete_recovery,
}
use passwd.Crypto.Account.Flows.Unlocking.{wrap_user_key-Rewraps}

module _ (p : Platform) where
  record DerivesRecovery (code : Text) : Type 0 where
    keys : RecoveryKeys
    derives : derive_recovery_keys p code ≡ ok keys
    is_key : IsKey 32 keys.recovery_enc_key

  derive_recovery_keys-DerivesRecovery : (code : Text) → DerivesRecovery code
  unfolding derive_recovery_keys derive_pbkdf2
  derive_recovery_keys-DerivesRecovery code =
      let base =
        p.pbkdf2_derives (p.utf8 (normalize_identifier p code)) (p.utf8 recovery_kdf_salt)
          recovery_kdf_iterations 32 (omega arith) (omega arith) in
      let ne = IsKey-ne-nil base.key base.is_key in
      let enc = hkdf_expand-Derived p base.key (codes "recovery-enc") 32 ne base.is_key.bytes in
      let auth = hkdf_expand-Derived p base.key (codes "recovery-auth") 32 ne base.is_key.bytes in
      record {
        keys = record { recovery_enc_key = enc.key; recovery_auth_hash = encode_groups auth.key };
        derives =
            rw
              (base.derives, enc.derives, auth.derives, to_base64-bytes auth.key auth.is_key.bytes);
        is_key = enc.is_key;
      }

  -- Enrolling succeeds. Completing a recovery with any spelling of the code that normalizes alike
  -- succeeds too, wherever the key derivation accepts the new password: it returns the enrolled
  -- user key and the enrolled verifier, and the new password unlocks that same key.
  pub complete-enroll_recovery :
      (code retyped identifier password : Text) (params : KdfParams) (user_key : Bytes)
      (w v : Entropy)
      → IsKey 64 user_key
      → normalize_identifier p retyped ≡ normalize_identifier p code
      → Derived 32 (derive_master_key p password identifier params)
      → (e : RecoveryEnrollment) × (r : RecoveryReset) × ((enroll_recovery_with p code user_key w).0
          ≡ ok e)
        × ((complete_recovery p retyped e.recovery_protected_user_key identifier password params
              v).0
            ≡ ok r)
        × (r.user_key ≡ user_key)
        × (r.recovery_auth_hash ≡ e.recovery_auth_hash)
        × (unlock p identifier password params r.protected_user_key
            ≡ ok (record { user_key = user_key; master_password_hash = r.master_password_hash }))
  unfolding enroll_recovery_with complete_recovery wrap_user_key_with_recovery
      unwrap_user_key_with_recovery
  complete-enroll_recovery code retyped identifier password params user_key w v is_key same d =
      let k = derive_recovery_keys-DerivesRecovery code in
      let again : derive_recovery_keys p retyped ≡ ok k.keys =
        unfold derive_recovery_keys in rw same (unfold derive_recovery_keys in k.derives) in
      let t = seal_text-SealsText p k.keys.recovery_enc_key user_key w k.is_key is_key.bytes in
      let r = wrap_user_key-Rewraps p identifier password params user_key v d is_key in
      (
        record {
          recovery_code = code;
          recovery_protected_user_key = t.text;
          recovery_auth_hash = k.keys.recovery_auth_hash;
        },
        record {
          recovery_auth_hash = k.keys.recovery_auth_hash;
          master_password_hash = r.hash;
          protected_user_key = r.text;
          kdf = params;
          user_key = user_key;
        },
        rw (k.derives, t.seals),
        rw (again, t.opens, r.derives, r.stretches, r.wraps, r.hashes),
        refl,
        refl,
        r.unlocks identifier refl,
      )

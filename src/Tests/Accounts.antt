-- ===== src/Tests/Accounts.antt =====
-- The theorems on accounts, items, vault files, backups and shares, on the toy platform.
use passwd.Base.{◌+◌, ◌*◌, ◌≡◌, refl, true, [], ◌∷◌, Text, Bytes, codes, arith}
use passwd.Base.Outcome.{ok}
use passwd.Base.Act.{Entropy, draw_bytes}
use passwd.Crypto.Identifier.{normalize_identifier}
use passwd.Crypto.Platform.{IsKey, Derived}
use passwd.Crypto.Primitives.{default_kdf, derive_key, hkdf_expand}
use passwd.Crypto.Primitives.Derivation.{hkdf_expand-Derived}
use passwd.Crypto.Primitives.Sealing.{draw-IsKey}
use passwd.Crypto.Account.Keys.{derive_master_key, unlock}
use passwd.Crypto.Account.Items.{encrypt_item_keyed, decrypt_item_keyed}
use passwd.Crypto.Account.Items.RoundTrip.{decrypt-encrypt_item_keyed}
use passwd.Crypto.Account.Flows.{
  Registration, RecoveryEnrollment, RecoveryReset, build_registration, enroll_recovery_with,
  complete_recovery,
}
use passwd.Crypto.Account.Flows.Unlocking.{unlock-build_registration}
use passwd.Crypto.Account.Flows.Recovery.{complete-enroll_recovery}
use passwd.Crypto.Backup.{encrypt_backup, decrypt_backup, is_backup_envelope}
use passwd.Crypto.Backup.RoundTrip.{decrypt-encrypt_backup}
use passwd.Crypto.Sharing.{
  UserKeypair, ShareEnvelope, generate_user_keypair, create_share, open_share,
}
use passwd.Crypto.Sharing.RoundTrip.{open-create_share}
use passwd.Crypto.Vault.{Created, create_vault, open_vault, save_vault, change_master_password}
use passwd.Crypto.Vault.RoundTrip.{
  Protects, open-create_vault, open-save_vault, open-change_master_password,
}
use passwd.Tests.Toy.{toy, lower_ascii, stretch-Derived}

abbrev pub counting : Entropy
counting = record { at = λ i. i * 37 + 11 }

abbrev user_key : Bytes
user_key = draw_bytes 64 0 counting

user_key-IsKey : IsKey 64 user_key
user_key-IsKey = draw-IsKey 64 0 counting

abbrev note : Text
note = codes "{\"name\":\"bank\"}"

toy_derives : (password salt : Text) → Derived 32 (derive_key toy password salt default_kdf)
unfolding derive_key
toy_derives password salt = stretch-Derived 32 _

toy_master :
    (password identifier : Text)
    → Derived 32 (derive_master_key toy password identifier default_kdf)
unfolding derive_master_key
toy_master password identifier = toy_derives password (normalize_identifier toy identifier)

hkdf_expand-Derived_example : Derived 70 (hkdf_expand toy (1 ∷ 2 ∷ []) (codes "enc") 70)
hkdf_expand-Derived_example =
    hkdf_expand-Derived toy (1 ∷ 2 ∷ []) (codes "enc") 70 (cc) (omega arith)

decrypt-encrypt_item_keyed_example :
    (stored : Text) × ((encrypt_item_keyed toy user_key note counting).0 ≡ ok stored)
    × (decrypt_item_keyed toy user_key stored ≡ ok note)
decrypt-encrypt_item_keyed_example =
    decrypt-encrypt_item_keyed toy user_key user_key-IsKey note counting (omega arith)

unlock-build_registration_example :
    (r : Registration) × ((build_registration toy
        (codes "Zoo  Zone ")
        (codes "pw")
        default_kdf
        counting).0
      ≡ ok r)
    × IsKey 64 r.user_key
    × (r.bundle.kdf ≡ default_kdf)
    × (unlock toy (codes "zoo zone") (codes "pw") default_kdf r.bundle.protected_user_key
        ≡ ok (record {
          user_key = r.user_key;
          master_password_hash = r.bundle.master_password_hash;
        }))
unfolding normalize_identifier lower_ascii
unlock-build_registration_example =
    unlock-build_registration toy (codes "Zoo  Zone ") (codes "zoo zone") (codes "pw") default_kdf
      counting refl (toy_master (codes "pw") (codes "Zoo  Zone "))

complete-enroll_recovery_example :
    (e : RecoveryEnrollment) × (r : RecoveryReset) × ((enroll_recovery_with toy
        (codes "zoo zone")
        user_key
        counting).0
      ≡ ok e)
    × ((complete_recovery toy
          (codes " ZOO zone")
          e.recovery_protected_user_key
          (codes "me")
          (codes "new")
          default_kdf
          counting).0
        ≡ ok r)
    × (r.user_key ≡ user_key)
    × (r.recovery_auth_hash ≡ e.recovery_auth_hash)
    × (unlock toy (codes "me") (codes "new") default_kdf r.protected_user_key
        ≡ ok (record { user_key = user_key; master_password_hash = r.master_password_hash }))
unfolding normalize_identifier lower_ascii
complete-enroll_recovery_example =
    complete-enroll_recovery toy (codes "zoo zone") (codes " ZOO zone") (codes "me") (codes "new")
      default_kdf user_key counting counting user_key-IsKey refl
      (toy_master (codes "new") (codes "me"))

open-create_share_example :
    (pair : UserKeypair) × (share : ShareEnvelope) × ((generate_user_keypair toy user_key
        counting).0
      ≡ ok pair)
    × ((create_share toy pair.public_key note counting).0 ≡ ok share)
    × (open_share toy user_key pair.protected_private_key share ≡ ok note)
open-create_share_example =
    open-create_share toy user_key user_key-IsKey counting counting note (omega arith)

decrypt-encrypt_backup_example :
    (file : Text) × ((encrypt_backup toy note (codes "pass") default_kdf counting).0 ≡ ok file)
    × (is_backup_envelope toy file ≡ true)
    × (decrypt_backup toy file (codes "pass") ≡ ok note)
decrypt-encrypt_backup_example =
    decrypt-encrypt_backup toy note b'p' (codes "ass") default_kdf counting
      (toy_derives (codes "pass") _) (omega arith)

open-create_vault_example :
    (r : Created) × ((create_vault toy (codes "pw") note default_kdf counting).0 ≡ ok r)
    × (open_vault toy r.file (codes "pw") ≡ ok (record { state = r.state; payload = note }))
    × Protects toy (codes "pw") r.state
open-create_vault_example =
    open-create_vault toy b'p' (codes "w") note default_kdf counting (toy_derives (codes "pw") _)
      (omega arith)

-- A vault of the toy platform, and the password that protects it.
pub made :
    (r : Created) × ((create_vault toy (codes "pw") note default_kdf counting).0 ≡ ok r)
    × (open_vault toy r.file (codes "pw") ≡ ok (record { state = r.state; payload = note }))
    × Protects toy (codes "pw") r.state
made =
    open-create_vault toy b'p' (codes "w") note default_kdf counting (toy_derives (codes "pw") _)
      (omega arith)

open-save_vault_example :
    (file : Text) × ((save_vault toy made.0.state (codes "[]") counting).0 ≡ ok file)
    × (open_vault toy file (codes "pw")
        ≡ ok (record { state = made.0.state; payload = codes "[]" }))
open-save_vault_example =
    open-save_vault toy made.0.state (codes "pw") (codes "[]") counting made.3 (omega arith)

open-change_master_password_example :
    (r : Created) × ((change_master_password toy made.0.state
        (codes "new")
        note
        default_kdf
        counting).0
      ≡ ok r)
    × (r.state.user_key ≡ made.0.state.user_key)
    × (open_vault toy r.file (codes "new") ≡ ok (record { state = r.state; payload = note }))
    × Protects toy (codes "new") r.state
open-change_master_password_example =
    open-change_master_password toy made.0.state b'n' (codes "ew") note default_kdf counting
      made.3.is_key (toy_derives (codes "new") _) (omega arith)

-- ===== src/Crypto/Backup/RoundTrip.antt =====
-- Encrypting a backup, and decrypting it.
use passwd.Base.{ℕ, ◌≡◌, refl, true, false, none, [], ap, ◌∷◌, Text}
use passwd.Base.Equality.{equal}
use passwd.Base.Json.{IsStable, find_member}
use passwd.Base.Outcome.{ok}
use passwd.Base.Act.{Entropy, later, draw_bytes}
use passwd.Crypto.Base64.{encode_groups}
use passwd.Crypto.Base64.RoundTrip.{to_base64-bytes, from_base64-encode_groups}
use passwd.Crypto.Platform.{Platform, Derived}
use passwd.Crypto.Primitives.{KdfParams, random_bytes, derive_key}
use passwd.Crypto.Primitives.Sealing.{draw-IsKey, aes_gcm_encrypt-Encrypts}
use passwd.Crypto.Envelope.Kdf.{read_kdf-kdf_json, kdf_json-IsStable}
use passwd.Crypto.Backup.{
  is_backup_json, backup_envelope, encrypt_backup, decrypt_backup, is_backup_envelope,
}

backup_envelope-IsStable : (k : KdfParams) (s n d : Text) → IsStable (backup_envelope k s n d)
unfolding find_member equal
backup_envelope-IsStable k s n d = (
  refl,
  tt,
  (refl, (1, refl), (refl, kdf_json-IsStable k, (refl, tt, (refl, tt, (refl, tt, tt))))),
)

module _ (p : Platform) where
  -- An empty text is no backup.
  pub is_backup_envelope-blank : p.parse_json [] ≡ none → is_backup_envelope p [] ≡ false
  unfolding is_backup_envelope is_backup_json
  is_backup_envelope-blank h = rw h refl

  -- Where the key derivation accepts the passphrase with the salt, which is the Base64 of the first
  -- sixteen random bytes, and the passphrase is not blank and the plaintext can be encoded, encrypting
  -- a backup succeeds; the text is recognised as a backup and decrypts to the plaintext.
  pub decrypt-encrypt_backup :
      (plaintext : Text) (c : ℕ) (rest : Text) (params : KdfParams) (w : Entropy)
      → Derived 32 (derive_key p (c ∷ rest) (encode_groups (draw_bytes 16 0 w)) params)
      → p.IsEncodable plaintext
      → (file : Text) × ((encrypt_backup p plaintext (c ∷ rest) params w).0 ≡ ok file)
        × (is_backup_envelope p file ≡ true)
        × (decrypt_backup p file (c ∷ rest) ≡ ok plaintext)
  unfolding encrypt_backup decrypt_backup is_backup_envelope random_bytes
  decrypt-encrypt_backup plaintext c rest params w d enc =
      let salt = draw_bytes 16 0 w in
      let e =
        aes_gcm_encrypt-Encrypts p d.key (p.utf8 plaintext) (later 16 w) d.is_key
          (p.utf8-bytes plaintext) in
      let value =
        backup_envelope params (encode_groups salt) (encode_groups e.result.nonce)
          (encode_groups e.result.ciphertext) in
      let parsed = p.parse-stringify_indented value (
        backup_envelope-IsStable params (encode_groups salt) (encode_groups e.result.nonce)
          (encode_groups e.result.ciphertext)) in
      (
        p.stringify_indented value,
        rw (
          to_base64-bytes salt (draw-IsKey 16 0 w).bytes,
          d.derives,
          e.encrypts,
          to_base64-bytes e.result.nonce e.nonce_bytes,
          to_base64-bytes e.result.ciphertext e.ciphertext_bytes,
        ),
        rw parsed,
        rw
            (
              parsed,
              read_kdf-kdf_json params,
              d.derives,
              from_base64-encode_groups e.result.nonce e.nonce_bytes,
              from_base64-encode_groups e.result.ciphertext e.ciphertext_bytes,
              e.decrypts,
            )
            (ap ok (p.from_utf8-utf8 plaintext enc)),
      )

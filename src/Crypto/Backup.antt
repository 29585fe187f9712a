-- ===== src/Crypto/Backup.antt =====
-- clients/packages/crypto/src/backup.ts: the passphrase-protected backup envelope.
pub mod RoundTrip
use passwd.Base.{
  ℕ, Bool, false, not, Option, none, some, [], ◌∷◌, if◌then◌else◌, Text, Bytes, codes,
}
use passwd.Base.Decimal.{decimal}
use passwd.Base.Outcome
use passwd.Base.Outcome.{Thrown, Result, ok, throw, error, catch}
use passwd.Base.Json.{Json, string, object, number, member, end_members, get, is_string, is_number}
use passwd.Base.Act.{Act, lift, pure, ◌>>=◌}
use passwd.Crypto.Base64.{to_base64, from_base64}
use passwd.Crypto.Envelope.{kdf_json, read_kdf, salt_text}
use passwd.Crypto.Platform.{Platform}
use passwd.Crypto.Primitives.{KdfParams, random_bytes, derive_key, aes_gcm_encrypt, aes_gcm_decrypt}

abbrev pub backup_format : Text
backup_format = codes "passwd-backup"

abbrev pub backup_version : ℕ
backup_version = 1

-- `BackupEnvelope`, as the value that is written: parameters, salt, nonce and ciphertext.
abbrev pub backup_envelope : KdfParams → Text → Text → Text → Json
backup_envelope kdf salt nonce ciphertext = object (
    member (codes "format") (string backup_format) (
      member (codes "version") (number (decimal backup_version)) (
        member (codes "kdf") (kdf_json kdf) (
          member (codes "salt") (string salt) (
            member (codes "nonce") (string nonce)
              (member (codes "data") (string ciphertext) end_members))))))

abbrev pub wrong_passphrase : Thrown
wrong_passphrase = error (codes "wrong passphrase or corrupted backup")

-- `atob` converts its argument to a text as `String` does, a missing one to "undefined".
atob_text : Option Json → Text
unfolding salt_text
atob_text none = codes "undefined"
atob_text v = salt_text v

module _ (p : Platform) where
  unfoldable pub encrypt_backup : Text → Text → KdfParams → Act Text
  encrypt_backup plaintext [] params =
      lift (throw (error (codes "a backup passphrase is required")))
  encrypt_backup plaintext (c ∷ passphrase) params = do
    random ← random_bytes 16
    salt ← lift (to_base64 random)
    key ← lift (derive_key p (c ∷ passphrase) salt params)
    r ← aes_gcm_encrypt p key (p.utf8 plaintext)
    nonce ← lift (to_base64 r.nonce)
    ciphertext ← lift (to_base64 r.ciphertext)
    pure (p.stringify_indented (backup_envelope params salt nonce ciphertext))

  -- The decoding and the decryption, whose failures are one error.
  decrypt_members : Bytes → Json → Result Text
  unfolding atob_text
  decrypt_members key v = Outcome.◌>>=◌ (from_base64 (atob_text (get (codes "nonce") v))) λ nonce.
      Outcome.◌>>=◌ (from_base64 (atob_text (get (codes "data") v)))
        λ ciphertext. Outcome.◌>>=◌ (aes_gcm_decrypt p key nonce ciphertext) λ b. ok (p.from_utf8 b)

  decrypt_version : Json → Text → Result Text
  unfolding decrypt_members
  decrypt_version v passphrase = Outcome.◌>>=◌ (read_kdf (get (codes "kdf") v)) λ kdf.
      Outcome.◌>>=◌ (derive_key p passphrase (salt_text (get (codes "salt") v)) kdf)
        λ key. catch (decrypt_members key v) λ _. throw wrong_passphrase

  decrypt_parsed : Option Json → Text → Result Text
  unfolding decrypt_version get is_string is_number
  decrypt_parsed none passphrase = throw (error (codes "not a valid passwd backup file"))
  decrypt_parsed (some v) passphrase =
      if not (is_string backup_format (get (codes "format") v))
      then throw (error (codes "not a passwd backup file"))
      else if not (is_number backup_version (get (codes "version") v))
      then throw (error (codes "unsupported backup version"))
      else decrypt_version v passphrase

  unfoldable pub decrypt_backup : Text → Text → Result Text
  unfolding decrypt_parsed
  decrypt_backup envelope passphrase = decrypt_parsed (p.parse_json envelope) passphrase

  is_backup_json : Option Json → Bool
  unfolding get is_string
  is_backup_json none = false
  is_backup_json (some v) = is_string backup_format (get (codes "format") v)

  unfoldable pub is_backup_envelope : Text → Bool
  unfolding is_backup_json
  is_backup_envelope text = is_backup_json (p.parse_json text)

-- ===== src/Crypto/Vault.antt =====
-- clients/packages/crypto/src/vault.ts: the offline vault file.
pub mod RoundTrip
use passwd.Base.{
  ℕ, Bool, true, false, not, Option, none, some, [], ◌∷◌, ◌++◌, if◌then◌else◌, Text, Bytes, codes,
}
use passwd.Base.Decimal.{decimal}
use passwd.Base.Outcome
use passwd.Base.Outcome.{Result, Thrown, ok, throw, error, catch}
use passwd.Base.Json.{
  Json, string, object, number, member, Members, end_members, get, is_string, is_number,
}
use passwd.Base.Act.{Act, lift, pure, ◌>>=◌, ◌>>◌}
use passwd.Crypto.Base64.{to_base64}
use passwd.Crypto.Platform.{Platform}
use passwd.Crypto.Primitives.{KdfParams, KdfType, pbkdf2, argon2id, random_bytes, derive_key}
use passwd.Crypto.Envelope.{kdf_json, read_kdf, salt_text}
use passwd.Crypto.Account.Keys.{StretchedKey, stretch_master_key, unwrap_user_key}
use passwd.Crypto.Account.Items.{as_text, encrypt_item, decrypt_item}
use passwd.Crypto.Account.Flows.{generate_user_key, wrap_user_key}

abbrev pub vault_format : Text
vault_format = codes "passwd-vault"

abbrev pub vault_version : ℕ
vault_version = 1

pub record VaultState : Type 0 where
  pub kdf : KdfParams
  pub salt : Text
  pub protected_user_key : Text
  pub user_key : Bytes

pub record Created : Type 0 where
  pub file : Text
  pub state : VaultState

pub record Opened : Type 0 where
  pub state : VaultState
  pub payload : Text

-- `VaultFile`, as the value that is written.
abbrev pub vault_file : VaultState → Text → Json
vault_file s vault = object (
    member (codes "format") (string vault_format) (
      member (codes "version") (number (decimal vault_version)) (
        member (codes "kdf") (kdf_json s.kdf) (
          member (codes "salt") (string s.salt) (
            member (codes "protectedUserKey") (string s.protected_user_key)
              (member (codes "vault") (string vault) end_members))))))

abbrev pub wrong_password : Thrown
wrong_password = error (codes "wrong master password or corrupted vault")

abbrev bad_file : {A : Type 0} → Text → Result A
bad_file message = throw (error message)

module _ (p : Platform) where
  unfoldable pub serialize : VaultState → Text → Act Text
  serialize state payload = do
    vault ← encrypt_item p state.user_key payload
    pure (p.stringify_indented (vault_file state vault))

  unfoldable pub create_vault : Text → Text → KdfParams → Act Created
  create_vault [] payload params = lift (bad_file (codes "a master password is required"))
  create_vault (c ∷ password) payload params = do
    random ← random_bytes 16
    salt ← lift (to_base64 random)
    master_key ← lift (derive_key p (c ∷ password) salt params)
    stretched ← lift (stretch_master_key p master_key)
    user_key ← generate_user_key
    protected_user_key ← wrap_user_key p stretched user_key
    let state : VaultState = record {
      kdf = params;
      salt = salt;
      protected_user_key = protected_user_key;
      user_key = user_key;
    }
    file ← serialize state payload
    pure (record { file = file; state = state })

  -- The two decryptions, whose failures are one error.
  open_members : StretchedKey → KdfParams → Json → Result Opened
  unfolding salt_text as_text
  open_members stretched kdf v =
      Outcome.◌>>=◌ (as_text (get (codes "protectedUserKey") v)) λ protected.
        Outcome.◌>>=◌ (unwrap_user_key p stretched protected) λ user_key.
          Outcome.◌>>=◌ (as_text (get (codes "vault") v)) λ vault.
            Outcome.◌>>=◌ (decrypt_item p user_key vault) λ payload. ok (record {
              state = record {
                kdf = kdf;
                salt = salt_text (get (codes "salt") v);
                protected_user_key = protected;
                user_key = user_key;
              };
              payload = payload;
            })

  open_version : Json → Text → Result Opened
  unfolding open_members
  open_version v password = Outcome.◌>>=◌ (read_kdf (get (codes "kdf") v)) λ kdf.
      Outcome.◌>>=◌ (derive_key p password (salt_text (get (codes "salt") v)) kdf) λ master_key.
        Outcome.◌>>=◌ (stretch_master_key p master_key)
          λ stretched. catch (open_members stretched kdf v) λ _. throw wrong_password

  open_parsed : Option Json → Text → Result Opened
  unfolding open_version get is_string is_number
  open_parsed none password = bad_file (codes "not a valid passwd vault file")
  open_parsed (some v) password =
      if not (is_string vault_format (get (codes "format") v))
      then bad_file (codes "not a passwd vault file")
      else if not (is_number vault_version (get (codes "version") v))
      then bad_file (codes "unsupported vault version")
      else open_version v password

  unfoldable pub open_vault : Text → Text → Result Opened
  unfolding open_parsed
  open_vault text password = open_parsed (p.parse_json text) password

  unfoldable pub save_vault : VaultState → Text → Act Text
  save_vault state payload = serialize state payload

  -- The user key is wrapped again; the payload is sealed under the same key.
  unfoldable pub change_master_password : VaultState → Text → Text → KdfParams → Act Created
  change_master_password state [] payload params =
      lift (bad_file (codes "a master password is required"))
  change_master_password state (c ∷ password) payload params = do
    random ← random_bytes 16
    salt ← lift (to_base64 random)
    master_key ← lift (derive_key p (c ∷ password) salt params)
    stretched ← lift (stretch_master_key p master_key)
    protected_user_key ← wrap_user_key p stretched state.user_key
    let next : VaultState = record {
      kdf = params;
      salt = salt;
      protected_user_key = protected_user_key;
      user_key = state.user_key;
    }
    file ← serialize next payload
    pure (record { file = file; state = next })

  is_vault_json : Option Json → Bool
  unfolding get is_string
  is_vault_json none = false
  is_vault_json (some v) = is_string vault_format (get (codes "format") v)

  unfoldable pub is_vault_file : Text → Bool
  unfolding is_vault_json
  is_vault_file text = is_vault_json (p.parse_json text)

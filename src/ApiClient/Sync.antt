-- ===== src/ApiClient/Sync.antt =====
-- clients/packages/api-client/src/session.ts: the vault's items on the server. The endpoints, with
-- the session's access token, are the parameter `Api`.
pub mod Loading
pub mod Importing
use passwd.Base.{ℕ, ◌+◌, suc, Option, none, some, List, [], ◌∷◌, ◌++◌, Text, Bytes, length}
use passwd.Base.Outcome.{Result, ok, throw}
use passwd.Base.Act.{Entropy}
use passwd.Base.Json.{Json, null}
use passwd.Crypto.Platform.{Platform}
use passwd.Crypto.Account.Items.{encrypt_item_keyed, decrypt_item_keyed}
use passwd.ApiClient.Items.{Session, ItemFields, VaultItem}
use passwd.ApiClient.Fields.{fields_json, normalize_item_fields}
use passwd.ApiClient.Remote.{Remote, done, local, remote, ◌>>=◌}

-- `CipherDto`
pub record Cipher : Type 0 where
  pub id : Text
  pub payload : Text
  pub created_at : Text
  pub updated_at : Text

pub record Api : Type 1 where
  pub Net : Type 0
  pub sync : Text → Net → Result (List Cipher) × Net
  pub create_cipher : Text → Text → Net → Result Cipher × Net
  pub update_cipher : Text → Text → Text → Net → Result (Unit {0}) × Net
  pub delete_cipher : Text → Text → Net → Result (Unit {0}) × Net

with_id : Text → Option ItemFields → Option VaultItem
with_id id none = none
with_id id (some f) = some (record { id = id; content = f })

module _ (p : Platform) where
  -- A null value has no members to read, and is refused like a text that is not JSON.
  read_value : Text → Option Json → Option VaultItem
  unfolding with_id
  read_value id none = none
  read_value id (some null) = none
  read_value id (some v) = with_id id (normalize_item_fields p v)

  read_plaintext : Text → Result Text → Option VaultItem
  unfolding read_value
  read_plaintext id (throw e) = none
  read_plaintext id (ok s) = read_value id (p.parse_json s)

  -- One turn of the loop of `loadVault`.
  unfoldable pub load_cipher : Bytes → Cipher → Option VaultItem
  unfolding read_plaintext
  load_cipher user_key c = read_plaintext c.id (decrypt_item_keyed p user_key c.payload)

  -- An item that cannot be read is skipped.
  keep : Option VaultItem → List VaultItem → List VaultItem
  keep none items = items
  keep (some i) items = i ∷ items

  unfoldable pub load_ciphers : Bytes → List Cipher → List VaultItem
  unfolding keep load_cipher
  load_ciphers user_key [] = []
  load_ciphers user_key (c ∷ cs) = keep (load_cipher user_key c) (load_ciphers user_key cs)

  module _ (api : Api) where
    open api use {Net}

    unfoldable pub load_vault : Session → Remote Net (List VaultItem)
    unfolding load_ciphers
    load_vault s = do
      ciphers ← remote (api.sync s.access_token)
      done (load_ciphers s.user_key ciphers)

    unfoldable pub add_item : Session → ItemFields → Remote Net VaultItem
    add_item s fields = do
      ciphertext ← local (encrypt_item_keyed p s.user_key (p.stringify (fields_json fields)))
      c ← remote (api.create_cipher s.access_token ciphertext)
      done (record { id = c.id; content = fields })

    unfoldable pub save_item : Session → VaultItem → Remote Net (Unit {0})
    save_item s i = do
      ciphertext ← local (encrypt_item_keyed p s.user_key (p.stringify (fields_json i.content)))
      remote (api.update_cipher s.access_token i.id ciphertext)

    unfoldable pub remove_item : Session → Text → Remote Net (Unit {0})
    remove_item s id = remote (api.delete_cipher s.access_token id)

-- What `importItems` has counted, and the calls of `onProgress`.
pub record Import : Type 0 where
  pub added : ℕ
  pub failed : ℕ
  pub progress : List (ℕ × ℕ)

-- One turn of the loop, after `addItem` returned or threw.
unfoldable pub count_item : ℕ → ℕ → Result VaultItem → Import → Import
count_item i total (ok item) r = record r {
  added = r.added + 1;
  progress = r.progress ++ ((i + 1, total) ∷ []);
}
count_item i total (throw e) r = record r {
  failed = r.failed + 1;
  progress = r.progress ++ ((i + 1, total) ∷ []);
}

module _ (p : Platform) (api : Api) where
  open api use {Net}

  -- The loop from the index on.
  unfoldable pub import_from :
      Session → ℕ → ℕ → List ItemFields → Import → Net → Entropy → Import × Net × Entropy
  unfolding count_item
  import_from s i total [] r net w = (r, net, w)
  import_from s i total (f ∷ fs) r net w =
      let (result, net', w') = add_item p api s f net w in
      import_from s (i + 1) total fs (count_item i total result r) net' w'

  unfoldable pub import_items : Session → List ItemFields → Net → Entropy → Import × Net × Entropy
  unfolding import_from
  import_items s fields net w =
      import_from s 0 (length fields) fields (record { added = 0; failed = 0; progress = [] }) net w

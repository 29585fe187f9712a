-- ===== src/ApiClient/Sync/Loading.antt =====
-- Adding an item, and loading the vault.
use passwd.Base.{◌≡◌, refl, ap, List, [], ◌∷◌, ◌++◌, Text, Bytes, codes, some, none, Option}
use passwd.Base.Act.{Entropy}
use passwd.Base.Outcome.{ok}
use passwd.Crypto.Platform.{Platform, IsKey}
use passwd.Crypto.Account.Items.{decrypt_item_keyed}
use passwd.Crypto.Account.Items.RoundTrip.{decrypt-encrypt_item_keyed}
use passwd.ApiClient.Items.{Session, ItemFields, VaultItem}
use passwd.ApiClient.Fields.{fields_json}
use passwd.ApiClient.Fields.RoundTrip.{fields_json-IsStable, normalize-fields_json}
use passwd.ApiClient.Sync.{Api, Cipher, load_cipher, load_ciphers, load_vault, add_item, keep}

-- The server's record of an item.
abbrev pub stored : Text → Text → Text → Text → Cipher
stored id created updated t = record {
  id = id;
  payload = t;
  created_at = created;
  updated_at = updated;
}

keep-append :
    (p : Platform) (i : Option VaultItem) (a b : List VaultItem) {c : List VaultItem}
    → c ≡ a ++ b
    → keep p i c ≡ keep p i a ++ b
unfolding keep
keep-append p none a b e = e
keep-append p (some i) a b e = ap (◌∷◌ i) e

module _ (p : Platform) (lower_false : p.lower (codes "false") ≡ codes "false") where
  load_ciphers-append :
      (user_key : Bytes) (a b : List Cipher)
      → load_ciphers p user_key (a ++ b) ≡ load_ciphers p user_key a ++ load_ciphers p user_key b
  unfolding load_ciphers keep
  load_ciphers-append user_key [] b = refl
  load_ciphers-append user_key (c ∷ a) b =
      keep-append p (load_cipher p user_key c) (load_ciphers p user_key a)
        (load_ciphers p user_key b) (load_ciphers-append user_key a b)

  load_cipher-kept :
      (user_key : Bytes) (c : Cipher) (f : ItemFields)
      → decrypt_item_keyed p user_key c.payload ≡ ok (p.stringify (fields_json f))
      → load_cipher p user_key c ≡ some (record { id = c.id; content = f })
  unfolding load_cipher
  load_cipher-kept user_key c f e =
      rw
        (
          e,
          p.parse-stringify (fields_json f) (fields_json-IsStable f),
          normalize-fields_json p f lower_false,
        )
        refl

  -- Adding an item succeeds on a server that stores what it is sent. Loading the vault from the
  -- server's new state gives the items that it held before, and behind them the item that was
  -- added, with all its fields.
  pub load_vault-add_item :
      (api : Api) (s : Session) (f : ItemFields) (before : List Cipher) (id created updated : Text)
      (net : api.Net) (after : Text → api.Net) (w v : Entropy)
      → IsKey 64 s.user_key
      → p.IsEncodable (p.stringify (fields_json f))
      → ((t : Text)
          → api.create_cipher s.access_token t net ≡ (ok (stored id created updated t), after t))
      → ((t : Text)
          → api.sync s.access_token (after t)
            ≡ (ok (before ++ (stored id created updated t ∷ [])), after t))
      → ((add_item p api s f net w).0 ≡ ok (record { id = id; content = f }))
        × ((load_vault p api s (add_item p api s f net w).1 v).0
            ≡ ok (load_ciphers p s.user_key before ++ (record { id = id; content = f } ∷ [])))
  unfolding add_item load_vault load_ciphers keep
  load_vault-add_item api s f before id created updated net after w v key encodable creates syncs =
      let (t, sealed, opens) =
        decrypt-encrypt_item_keyed p s.user_key key (p.stringify (fields_json f)) w encodable in
      rw
        (
          sealed,
          creates t,
          syncs t,
          load_ciphers-append s.user_key before (stored id created updated t ∷ []),
          load_cipher-kept s.user_key (stored id created updated t) f opens,
        )
        (refl, refl)

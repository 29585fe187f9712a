-- ===== src/Web/Vault/Saving.antt =====
-- The screen after a save.
use passwd.Base.{◌≡◌, refl, true, false, none, some, List, [], ◌∷◌, ◌++◌, Text, codes}
use passwd.Base.Act.{Entropy}
use passwd.Base.Outcome.{Thrown, ok, throw, message_of}
use passwd.Crypto.Platform.{Platform, IsKey}
use passwd.ApiClient.Items.{Session, ItemFields, VaultItem}
use passwd.ApiClient.Fields.{fields_json}
use passwd.ApiClient.Sync.{Api, Cipher, load_ciphers, add_item}
use passwd.ApiClient.Sync.Loading.{stored, load_vault-add_item}
use passwd.Web.Vault.{Screen, reload, reloaded, finished, handle_save, sent}

module _ (p : Platform) (api : Api) (session : Session) where
  -- A new item that the server stores is in the list as soon as the editor closes, behind the items
  -- that the server held before: the error and the loading mark are gone, the toast says that it is
  -- saved, and the selection is as it was.
  pub handle_save-added :
      (f : ItemFields) (before : List Cipher) (id created updated : Text) (s : Screen)
      (net : api.Net) (after : Text → api.Net) (w : Entropy)
      → p.lower (codes "false") ≡ codes "false"
      → IsKey 64 session.user_key
      → p.IsEncodable (p.stringify (fields_json f))
      → ((t : Text)
          → api.create_cipher session.access_token t net
            ≡ (ok (stored id created updated t), after t))
      → ((t : Text)
          → api.sync session.access_token (after t)
            ≡ (ok (before ++ (stored id created updated t ∷ [])), after t))
      → ((handle_save p api session (record { id = []; content = f }) s net w).0 ≡ true)
        × ((handle_save p api session (record { id = []; content = f }) s net w).1 ≡ record s {
          items = load_ciphers p session.user_key before ++ (record { id = id; content = f } ∷ []);
          loading = false;
          error = none;
          toast = some (codes "Saved");
        })
  unfolding handle_save finished reload reloaded
  handle_save-added f before id created updated s net after w lower_false key encodable creates
        syncs =
      let (adds, loads) =
        load_vault-add_item p lower_false api session f before id created updated net after w
          (add_item p api session f net w).2 key encodable creates syncs in
      (rw adds refl, rw adds (rw loads refl))

  -- A save that fails leaves the list, the selection and the toast, keeps the editor open, and shows
  -- the message of the error.
  pub handle_save-failed :
      (i : VaultItem) (s : Screen) (net net' : api.Net) (w w' : Entropy) (e : Thrown)
      → sent p api session i.id i net w ≡ (throw e, net', w')
      → handle_save p api session i s net w
        ≡ (false, record s { error = some (message_of e) }, net', w')
  unfolding handle_save finished message_of
  handle_save-failed i s net net' w w' e fails = rw fails refl

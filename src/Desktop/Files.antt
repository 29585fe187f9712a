-- ===== src/Desktop/Files.antt =====
-- clients/apps/desktop/src/storage.ts and types.ts: an open vault file. Reading and writing files is
-- the desktop shell's, the parameter `Shell`. The entries of a payload are JSON values: nothing
-- checks their type.
pub mod Reopening
use passwd.Base.{List, [], ◌∷◌, Option, none, some, Text, codes}
use passwd.Base.Outcome.{Result, ok, throw, error}
use passwd.Base.Json.{
  Json, null, number, string, array, object, Items, end_items, item, member, end_members, get,
}
use passwd.Crypto.Platform.{Platform}
use passwd.Crypto.Primitives.{default_kdf}
use passwd.Crypto.Vault.{
  VaultState, Opened, Created, create_vault, open_vault, save_vault, change_master_password,
}
use passwd.ApiClient.Remote.{Remote, done, local, remote, ◌>>=◌}

-- `VaultItem` of types.ts
pub record Entry : Type 0 where
  pub id : Text
  pub name : Text
  pub username : Text
  pub password : Text
  pub url : Text
  pub notes : Text

abbrev pub entry_json : Entry → Json
entry_json e = object (
    member (codes "id") (string e.id) (
      member (codes "name") (string e.name) (
        member (codes "username") (string e.username) (
          member (codes "password") (string e.password) (
            member (codes "url") (string e.url)
              (member (codes "notes") (string e.notes) end_members))))))

unfoldable pub entries_json : List Entry → Items
entries_json [] = end_items
entries_json (e ∷ es) = item (entry_json e) (entries_json es)

pub record DesktopVault : Type 0 where
  pub path : Text
  pub state : VaultState
  pub items : Items

-- The value that is written as a payload.
abbrev pub payload_json : Items → Json
payload_json items = object (
    member (codes "version") (number (codes "1"))
      (member (codes "items") (array items) end_members))

-- `Array.isArray(p.items) ? p.items : []`
unfoldable pub items_or_none : Option Json → Items
items_or_none (some (array items)) = items
items_or_none v = end_items

-- The parsed payload: a text that is not JSON, and a null value, throw.
unfoldable pub read_payload : Option Json → Result Items
unfolding items_or_none get
read_payload none = throw (error (codes "SyntaxError"))
read_payload (some null) = throw (error (codes "Cannot read properties of null (reading 'items')"))
read_payload (some v) = ok (items_or_none (get (codes "items") v))

pub record Shell : Type 1 where
  pub Net : Type 0
  pub read_vault : Text → Net → Result Text × Net
  pub write_vault : Text → Text → Net → Result (Unit {0}) × Net

module _ (p : Platform) where
  unfoldable pub encode_payload : Items → Text
  encode_payload items = p.stringify (payload_json items)

  unfoldable pub decode_payload : Text → Result Items
  unfolding read_payload
  decode_payload payload = read_payload (p.parse_json payload)

  module _ (shell : Shell) where
    open shell use {Net}

    unfoldable pub create_new_vault : Text → Text → Remote Net DesktopVault
    unfolding encode_payload
    create_new_vault path master_password = do
      c ← local (create_vault p master_password (encode_payload end_items) default_kdf)
      _ ← remote (shell.write_vault path c.file)
      done (record { path = path; state = c.state; items = end_items })

    unfoldable pub open_existing_vault : Text → Text → Remote Net DesktopVault
    unfolding decode_payload
    open_existing_vault path master_password = do
      file ← remote (shell.read_vault path)
      o ← local (λ w. (open_vault p file master_password, w))
      items ← local (λ w. (decode_payload o.payload, w))
      done (record { path = path; state = o.state; items = items })

    unfoldable pub persist : DesktopVault → Remote Net (Unit {0})
    unfolding encode_payload
    persist v = do
      file ← local (save_vault p v.state (encode_payload v.items))
      remote (shell.write_vault v.path file)

    unfoldable pub rekey : DesktopVault → Text → Remote Net DesktopVault
    unfolding encode_payload
    rekey v new_password = do
      c ← local (change_master_password p v.state new_password (encode_payload v.items) v.state.kdf)
      _ ← remote (shell.write_vault v.path c.file)
      done (record { path = v.path; state = c.state; items = v.items })

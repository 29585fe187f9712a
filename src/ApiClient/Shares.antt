-- ===== src/ApiClient/Shares.antt =====
-- clients/packages/api-client/src/session.ts: items shared with another user. The endpoints are the
-- parameter `ShareApi`.
pub mod Listing
use passwd.Base.{Option, none, some, List, [], ◌∷◌, Text, Bytes}
use passwd.Base.Outcome.{Result, ok, throw}
use passwd.Base.Json.{Json, null}
use passwd.Crypto.Platform.{Platform}
use passwd.Crypto.Sharing.{ShareEnvelope, create_share, open_share}
use passwd.ApiClient.Items.{Session, ItemFields, VaultItem}
use passwd.ApiClient.Fields.{fields_json, normalize_item_fields}
use passwd.ApiClient.Remote.{Remote, done, local, remote, ◌>>=◌}

-- A share as the server lists it.
pub record Share : Type 0 where
  pub id : Text
  pub sealed : ShareEnvelope

-- `{ id, shareId, ...fields }`
pub record SharedItem : Type 0 where
  pub id : Text
  pub share_id : Text
  pub content : ItemFields

pub record ShareApi : Type 1 where
  pub Net : Type 0
  pub lookup_public_key : Text → Text → Net → Result Text × Net
  pub create_share : Text → Text → ShareEnvelope → Net → Result (Unit {0}) × Net
  pub list_shares : Text → Net → Result (List Share) × Net

shared : Text → Option ItemFields → Option SharedItem
shared id none = none
shared id (some f) = some (record { id = id; share_id = id; content = f })

module _ (p : Platform) where
  read_share : Text → Option Json → Option SharedItem
  unfolding shared
  read_share id none = none
  read_share id (some null) = none
  read_share id (some v) = shared id (normalize_item_fields p v)

  read_opened : Text → Result Text → Option SharedItem
  unfolding read_share
  read_opened id (throw e) = none
  read_opened id (ok s) = read_share id (p.parse_json s)

  -- One turn of the loop of `listSharedWithMe`.
  unfoldable pub load_share : Session → Share → Option SharedItem
  unfolding read_opened
  load_share s sh = read_opened sh.id (open_share p s.user_key s.protected_private_key sh.sealed)

  -- A share that cannot be read is skipped.
  keep : Option SharedItem → List SharedItem → List SharedItem
  keep none items = items
  keep (some i) items = i ∷ items

  unfoldable pub load_shares : Session → List Share → List SharedItem
  unfolding keep load_share
  load_shares s [] = []
  load_shares s (sh ∷ shs) = keep (load_share s sh) (load_shares s shs)

  module _ (api : ShareApi) where
    open api use {Net}

    unfoldable pub share_item : Session → Text → VaultItem → Remote Net (Unit {0})
    share_item s recipient i = do
      public_key ← remote (api.lookup_public_key s.access_token recipient)
      sealed ← local (create_share p public_key (p.stringify (fields_json i.content)))
      remote (api.create_share s.access_token recipient sealed)

    unfoldable pub list_shared_with_me : Session → Remote Net (List SharedItem)
    unfolding load_shares
    list_shared_with_me s = do
      shares ← remote (api.list_shares s.access_token)
      done (load_shares s shares)

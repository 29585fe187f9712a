-- ===== src/Extension/Protocol.antt =====
-- clients/apps/extension/utils/protocol.ts: the messages between the popup, the content scripts and
-- the background worker.
use passwd.Base.{List, Option, Text}
use passwd.ApiClient.Items.{VaultItem, ItemFields}

pub record PendingSave : Type 0 where
  pub url : Text
  pub username : Text
  pub password : Text

-- `BgRequest`; `other` is a message of any other type.
pub data Request : Type 0 where
  get_state : Request
  unlock : Text → Text → Option Text → Request
  lock : Request
  get_items : Request
  add_item : ItemFields → Request
  update_item : VaultItem → Request
  delete_item : Text → Request
  get_pending : Request
  dismiss_pending : Request
  capture_login : Text → Text → Text → Request
  other : Request

-- The responses, with a constructor for each combination of members that the worker sends.
pub data Reply : Type 0 where
  state_locked : Reply
  state_unlocked : Text → Reply
  locked : Reply
  done : Reply
  failed : Text → Reply
  two_factor_required : List Text → Reply
  items : List VaultItem → Reply
  added : VaultItem → Reply
  pending : Option PendingSave → Reply
  no_reply : Reply

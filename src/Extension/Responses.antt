-- ===== src/Extension/Responses.antt =====
-- clients/apps/extension/entrypoints/popup/App.tsx: what the popup reads of a response, and the form
-- that unlocks.
use passwd.Base.{Bool, true, false, Option, none, some, List, [], ◌∷◌, ◌||◌, Text, codes}
use passwd.Base.Equality.{equal}
use passwd.Base.Outcome.{Result, ok, throw, error}
use passwd.ApiClient.Items.{VaultItem}
use passwd.Extension.Protocol.{
  PendingSave, Reply, state_locked, locked, done, failed, two_factor_required, items, added,
  pending, no_reply,
}
use passwd.Web.Listing.{or_text}

-- The members of a response. A member that is not there is `undefined`, and an empty message is false.
unfoldable pub is_locked : Reply → Bool
is_locked state_locked = true
is_locked locked = true
is_locked _ = false

unfoldable pub error_in : Reply → Option Text
error_in (failed (c ∷ message)) = some (c ∷ message)
error_in _ = none

unfoldable pub items_in : Reply → List VaultItem
items_in (items is) = is
items_in _ = []

unfoldable pub pending_in : Reply → Option PendingSave
pending_in (pending q) = q
pending_in _ = none

-- The first read of a member throws if there is no response.
unfoldable pub received : Reply → Result Reply
received no_reply = throw (error [])
received r = ok r

-- The form of `Unlock`.
pub record UnlockForm : Type 0 where
  pub identifier : Text
  pub password : Text
  pub totp : Text
  pub error : Option Text
  pub two_factor : Option (List Text)

unfoldable pub has_method : Text → List Text → Bool
unfolding equal
has_method m [] = false
has_method m (x ∷ methods) = equal x m || has_method m methods

unfoldable pub need_totp : Option (List Text) → Bool
unfolding has_method
need_totp none = false
need_totp (some methods) = has_method (codes "totp") methods

-- Whether the vault is shown then, and the form.
unfoldable pub after_unlock : Reply → UnlockForm → Bool × UnlockForm
after_unlock done f = (true, f)
after_unlock (added i) f = (true, f)
after_unlock (two_factor_required methods) f = (false, record f { two_factor = some methods })
after_unlock (failed message) f =
    (false, record f { error = some (or_text message (codes "Unlock failed.")) })
after_unlock _ f = (false, record f { error = some (codes "Unlock failed.") })

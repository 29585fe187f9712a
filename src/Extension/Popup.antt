-- ===== src/Extension/Popup.antt =====
-- clients/apps/extension/entrypoints/popup/App.tsx: the popup's state and its handlers. A message to
-- the worker and its answer are the parameter `send`. The toast stays until it is cleared, and what an
-- unmounted view is set to is not shown.
pub mod Captured
use passwd.Base.{
  Bool, true, false, Option, none, some, List, [], ◌∷◌, ◌||◌, if◌then◌else◌, Text, codes,
}
use passwd.Base.Equality.{equal}
use passwd.Base.Outcome.{Result, ok, throw, error}
use passwd.ApiClient.Items.{VaultItem, login, blank_fields}
use passwd.ApiClient.Portable.{is_blank}
use passwd.Extension.Hosts.{address, strip_www}
use passwd.Extension.Protocol.{
  PendingSave, Request, get_state, unlock, lock, get_items, add_item, update_item, delete_item,
  get_pending, dismiss_pending, Reply, state_locked, locked, done, failed, two_factor_required,
  items, added, pending, no_reply,
}
use passwd.Web.Listing.{or_text}
use passwd.Web.Vault.{strip_id}
use passwd.Extension.Responses.{
  is_locked, error_in, items_in, pending_in, received, UnlockForm, need_totp, after_unlock,
}

-- The state of `App` and of `Vault`.
pub record Popup : Type 0 where
  pub is_shut : Bool
  pub items : List VaultItem
  pub loading : Bool
  pub error : Option Text
  pub toast : Option Text
  pub editing : Option VaultItem
  pub from_pending : Bool
  pub pending : Option PendingSave

abbrev pub on_lock : Popup → Popup
on_lock s = record s { is_shut = true }

abbrev pub flash_label : Text → Popup → Popup
flash_label label s = record s { toast = some label }

unfoldable pub shown_items : Option Text → List VaultItem → Popup → Popup
shown_items none is s = record s { items = is }
shown_items (some message) is s = record s { error = some message }

offered : Result Reply → Popup → Popup
unfolding pending_in
offered (ok r) s = record s { pending = pending_in r }
offered (throw e) s = s

map_result : {A B : Type 0} → (A → B) → Result A → Result B
map_result f (ok a) = ok (f a)
map_result f (throw e) = throw e

unfoldable pub start_add : Popup → Popup
start_add s = record s {
  from_pending = false;
  editing = some (record { id = []; content = blank_fields login });
}

module _ (hostname : Text → Option Text) where
  shown_host : Option Text → Text
  shown_host none = []
  shown_host (some host) = strip_www host

  -- The popup's own `safeHost`.
  unfoldable pub site_host : Text → Text
  unfolding shown_host strip_www address
  site_host [] = []
  site_host (c ∷ url) = shown_host (hostname (address (c ∷ url)))

  review : Option PendingSave → Popup → Popup
  review none s = s
  review (some q) s = record s {
    from_pending = true;
    editing = some (record {
      id = [];
      content = record (blank_fields login) {
        name = or_text (site_host q.url) (codes "New login");
        username = q.username;
        password = q.password;
        url = q.url;
      };
    });
  }

  unfoldable pub review_pending : Popup → Popup
  unfolding review site_host
  review_pending s = review s.pending s

-- The request that saves an item: a new one has no id.
unfoldable pub save_request : VaultItem → Request
save_request i = if is_blank i.id then add_item (strip_id i) else update_item i

module _ {World : Type 0} (send : Request → World → Reply × World) where
  unfoldable pub submit_unlock : UnlockForm → World → (Bool × UnlockForm) × World
  unfolding after_unlock need_totp
  submit_unlock f w =
      let (r, w') =
        send (unlock f.identifier f.password (if need_totp f.two_factor then some f.totp else none))
          w in
      (after_unlock r (record f { error = none }), w')

  -- A handler: what it returns or throws, and the popup and the world after it.
  abbrev pub Handler : Type 0 → Type 0
  Handler A = Popup × World → Result A × (Popup × World)

  abbrev pub give : {A : Type 0} → A → Handler A
  give a st = (ok a, st)

  abbrev proceed :
      {A B : Type 0} → (A → Handler B) → Result A × (Popup × World) → Result B × (Popup × World)
  proceed f (ok a, st) = f a st
  proceed f (throw e, st) = (throw e, st)

  infixl 5 ◌>>=◌ ◌>>◌
  abbrev ◌>>=◌ : {A B : Type 0} → Handler A → (A → Handler B) → Handler B
  ◌>>=◌ m f st = proceed f (m st)

  abbrev ◌>>◌ : {B : Type 0} → Handler (Unit {0}) → Handler B → Handler B
  m >> next = m >>= λ _. next

  abbrev set : (Popup → Popup) → Handler (Unit {0})
  set f (s, w) = (ok tt, (f s, w))

  -- A message whose response is read, and one whose response is not.
  abbrev ask_worker : Request → Handler Reply
  ask_worker q (s, w) = let (r, w') = send q w in (received r, (s, w'))

  abbrev tell_worker : Request → Handler (Unit {0})
  tell_worker q (s, w) = (ok tt, (s, (send q w).1))

  unfoldable pub reload_items : Handler (Unit {0})
  unfolding received is_locked error_in items_in shown_items
  reload_items = do
    r ← ask_worker get_items
    if is_locked r then set on_lock else set (shown_items (error_in r) (items_in r))

  unfoldable pub lock_now : Handler (Unit {0})
  lock_now = tell_worker lock >> set on_lock

  unfoldable pub dismiss : Handler (Unit {0})
  dismiss = set (λ s. record s { pending = none }) >> tell_worker dismiss_pending

  -- `if (fromPending) await dismissPending()`
  unfoldable pub dismiss_if_captured : Handler (Unit {0})
  unfolding dismiss
  dismiss_if_captured (s, w) = if s.from_pending then dismiss (s, w) else (ok tt, (s, w))

  -- After a save that the worker did not refuse.
  unfoldable pub after_save : VaultItem → Handler (Option Text)
  unfolding dismiss_if_captured reload_items
  after_save i = do
    dismiss_if_captured
    set (λ s. record s { editing = none; from_pending = false })
    reload_items
    set (flash_label (if is_blank i.id then codes "Added" else codes "Saved"))
    give none

  -- After a deletion that the worker did not refuse.
  unfoldable pub after_delete : Handler (Option Text)
  unfolding reload_items
  after_delete = do
    set (λ s. record s { editing = none })
    reload_items
    set (flash_label (codes "Deleted"))
    give none

  unfoldable pub unless_refused : Option Text → Handler (Option Text) → Handler (Option Text)
  unless_refused (some message) next st = (ok (some message), st)
  unless_refused none next st = next st

  -- What both handlers do with the response.
  unfoldable pub on_mutation : Handler (Option Text) → Reply → Handler (Option Text)
  unfolding is_locked error_in unless_refused
  on_mutation next r =
      if is_locked r then (set on_lock >> give none) else unless_refused (error_in r) next

  -- The message that the editor shows, if any.
  unfoldable pub save_editing : VaultItem → Handler (Option Text)
  unfolding received save_request on_mutation after_save
  save_editing i = ask_worker (save_request i) >>= on_mutation (after_save i)

  unfoldable pub delete_editing : VaultItem → Handler (Option Text)
  unfolding received on_mutation after_delete
  delete_editing i = ask_worker (delete_item i.id) >>= on_mutation after_delete

  -- `App`'s first request: whether the form is shown.
  unfoldable pub started : World → Result Bool × World
  unfolding received is_locked map_result
  started w = let (r, w') = send get_state w in (map_result is_locked (received r), w')

  -- The first requests of `Vault`, without that for the address of the tab.
  unfoldable pub mounted : Popup × World → Popup × World
  unfolding reload_items offered
  mounted st =
      let (_, (s, w)) = reload_items st in
      let (r, w') = send get_pending w in (offered (received r) (record s { loading = false }), w')

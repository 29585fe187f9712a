-- ===== src/Web/Vault.antt =====
-- clients/apps/web/src/VaultScreen.tsx: the vault's screen and the handlers that change items. Its
-- React state is `Screen`; the toast stays until it is cleared. Every thrown value is an `Error`.
pub mod Saving
use passwd.Base.{
  Bool, true, false, not, Option, none, some, List, [], ◌∷◌, if◌then◌else◌, Text, codes,
}
use passwd.Base.Act.{Entropy}
use passwd.Base.Equality.{equal}
use passwd.Base.Outcome.{Result, ok, throw, message_of}
use passwd.Crypto.Platform.{Platform}
use passwd.ApiClient.Items.{Session, ItemFields, VaultItem}
use passwd.ApiClient.Remote.{Remote, done, ◌>>=◌}
use passwd.ApiClient.Sync.{Api, load_vault, add_item, save_item, remove_item}

pub record Screen : Type 0 where
  pub items : List VaultItem
  pub loading : Bool
  pub error : Option Text
  pub toast : Option Text
  pub selected : Option Text

-- The states that the hooks start with.
abbrev pub opened : Screen
opened = record { items = []; loading = true; error = none; toast = none; selected = none }

abbrev pub flash : Text → Screen → Screen
flash message s = record s { toast = some message }

-- `stripId`
abbrev pub strip_id : VaultItem → ItemFields
strip_id i = i.content

unfoldable pub closed_if : Text → Option Text → Option Text
unfolding equal
closed_if id none = none
closed_if id (some selected) = if equal selected id then none else some selected

-- The end of `reload`, with what `loadVault` returned or threw.
unfoldable pub reloaded : Result (List VaultItem) → Screen → Screen
unfolding message_of
reloaded (ok items) s = record s { items = items; error = none; loading = false }
reloaded (throw e) s = record s { error = some (message_of e); loading = false }

module _ (p : Platform) (api : Api) (session : Session) where
  open api use {Net}

  unfoldable pub reload : Screen → Net → Entropy → Screen × Net × Entropy
  unfolding reloaded load_vault
  reload s net w =
      let (r, net', w') = load_vault p api session net w in
      (reloaded r (record s { loading = true; error = none }), net', w')

  -- What a handler does after its call of the server: the vault is loaded again and a toast is shown,
  -- or the error is.
  unfoldable pub finished :
      {A : Type 0}
      → (Screen → Screen)
      → Result A
      → Screen
      → Net
      → Entropy
      → Bool × Screen × Net × Entropy
  unfolding reload message_of
  finished after (throw e) s net w = (false, record s { error = some (message_of e) }, net, w)
  finished after (ok a) s net w = let (s', net', w') = reload s net w in (true, after s', net', w')

  abbrev add_stripped : VaultItem → Remote Net (Unit {0})
  add_stripped i = do added ← add_item p api session (strip_id i); done tt

  -- An item with an `id` is saved, one without is added.
  abbrev pub sent : Text → VaultItem → Remote Net (Unit {0})
  sent [] i = add_stripped i
  sent (c ∷ id) i = save_item p api session i

  abbrev dropped : Bool × Screen × Net × Entropy → Screen × Net × Entropy
  dropped r = (r.1, r.2, r.3)

  -- The result tells whether the editor closes.
  unfoldable pub handle_save : VaultItem → Screen → Net → Entropy → Bool × Screen × Net × Entropy
  unfolding finished
  handle_save i s net w =
      let (r, net', w') = sent i.id i net w in finished (flash (codes "Saved")) r s net' w'

  abbrev pub with_notes : Text → VaultItem → VaultItem
  with_notes notes i = record i { content = record i.content { notes = notes } }

  unfoldable pub save_notes : VaultItem → Text → Screen → Net → Entropy → Screen × Net × Entropy
  unfolding finished equal save_item
  save_notes i notes s net w =
      let (r, net', w') = save_item p api session (with_notes notes i) net w in
      if equal notes i.content.notes
      then (s, net, w)
      else dropped (finished (flash (codes "Notes saved")) r s net' w')

  -- The selection is dropped before the vault is loaded again.
  deleted : VaultItem → Result (Unit {0}) → Screen → Net → Entropy → Screen × Net × Entropy
  unfolding finished closed_if message_of
  deleted i (throw e) s net w = (record s { error = some (message_of e) }, net, w)
  deleted i (ok u) s net w = dropped (
      finished (flash (codes "Deleted")) (ok u) (record s { selected = closed_if i.id s.selected })
        net w)

  -- The first argument is the answer to the question whether to delete.
  unfoldable pub handle_delete : Bool → VaultItem → Screen → Net → Entropy → Screen × Net × Entropy
  unfolding deleted remove_item
  handle_delete false i s net w = (s, net, w)
  handle_delete true i s net w =
      let (r, net', w') = remove_item p api session i.id net w in deleted i r s net' w'

  abbrev pub starred : VaultItem → VaultItem
  starred i = record i { content = record i.content { favorite = not i.content.favorite } }

  -- No toast is shown.
  unfoldable pub toggle_favorite : VaultItem → Screen → Net → Entropy → Screen × Net × Entropy
  unfolding finished save_item
  toggle_favorite i s net w =
      let (r, net', w') = save_item p api session (starred i) net w in
      dropped (finished (λ s'. s') r s net' w')

-- ===== src/Desktop/Entries.antt =====
-- clients/apps/desktop/src/VaultScreen.tsx, App.tsx and types.ts: the entries of an open vault, and
-- the handlers that change them. An entry of a file is a JSON value: nothing checks its type, so
-- that the list that is shown, which is of entries that have theirs, is a function of `Entry`s.
pub mod Lookup
use passwd.Base.{
  Bool, true, false, not, ◌&&◌, ◌||◌, Option, none, some, List, [], ◌∷◌, ◌++◌, if◌then◌else◌, Text,
  Bytes, codes,
}
use passwd.Base.Act.{Act, Entropy}
use passwd.Base.Equality.{equal}
use passwd.Base.Hex.{hex}
use passwd.Base.Json.{Json, null, string, Items, end_items, item, get, is_string}
use passwd.Base.Outcome
use passwd.Base.Outcome.{Result, ok, throw, message_of}
use passwd.Base.Sorting.{filter, sort}
use passwd.Base.Strings.{includes_text}
use passwd.Crypto.Platform.{Platform}
use passwd.Crypto.Primitives.{random_bytes}
use passwd.ApiClient.Portable.{is_blank}
use passwd.Desktop.Files.{Entry, entry_json, DesktopVault, Shell, persist}
use passwd.Desktop.Recents.{RecentVault}
use passwd.Idle.{Screen, start, unlock}

abbrev pub blank_item : Entry
blank_item = record { id = []; name = []; username = []; password = []; url = []; notes = [] }

abbrev hexed : Result Bytes → Result Text
hexed (ok bytes) = ok (hex bytes)
hexed (throw e) = throw e

unfoldable pub new_item_id : Act Text
unfolding hex random_bytes
new_item_id w = let (bytes, w') = random_bytes 16 w in (hexed bytes, w')

-- `i.id === id`
unfoldable pub has_id : Text → Json → Bool
unfolding is_string get
has_id id v = is_string id (get (codes "id") v)

-- `items.some((i) => i.id === id)`
unfoldable pub some_id : Text → Items → Bool
unfolding has_id
some_id id end_items = false
some_id id (item v vs) = has_id id v || some_id id vs

-- `items.map((i) => (i.id === id ? entry : i))`
unfoldable pub replace_id : Text → Json → Items → Items
unfolding has_id
replace_id id e end_items = end_items
replace_id id e (item v vs) =
    let rest = replace_id id e vs in if has_id id v then item e rest else item v rest

-- `[...items, entry]`
unfoldable pub add_last : Items → Json → Items
add_last end_items e = item e end_items
add_last (item v vs) e = item v (add_last vs e)

-- `items.filter((i) => i.id !== id)`
unfoldable pub without_id : Text → Items → Items
unfolding has_id
without_id id end_items = end_items
without_id id (item v vs) = let rest = without_id id vs in if has_id id v then rest else item v rest

-- The entries after an entry is saved.
unfoldable pub put_entry : Entry → Items → Items
unfolding some_id replace_id add_last
put_entry e items =
    if some_id e.id items
    then replace_id e.id (entry_json e) items
    else add_last items (entry_json e)

-- The React state of the screen, with the vault that `onChange` sets.
pub record Shown : Type 0 where
  pub vault : DesktopVault
  pub selected : Option Text
  pub editing : Option Entry
  pub toast : Option Text
  pub shown_error : Option Text

-- `withId`: an entry without an id gets a new one.
unfoldable pub with_id : Entry → Act Entry
unfolding new_item_id
with_id e w = elim e.id [
  | c ∷ id ↦ (ok e, w)
  | [] ↦ let (r, w') = new_item_id w in (Outcome.◌>>=◌ r λ id. ok (record e { id = id }), w')
]

unfoldable pub closed_if : Text → Option Text → Option Text
unfolding equal
closed_if id none = none
closed_if id (some selected) = if equal selected id then none else some selected

module _ (p : Platform) (shell : Shell) where
  open shell use {Net}

  abbrev next : Items → DesktopVault → DesktopVault
  next items v = record v { items = items }

  -- `commit`: the vault is changed once it is written.
  unfoldable pub commit : Items → Shown → Net → Entropy → Result Shown × Net × Entropy
  unfolding persist
  commit items s net w =
      let (r, net', w') = persist p shell (next items s.vault) net w in
      (Outcome.◌>>=◌ r λ u. ok (record s { vault = next items s.vault }), net', w')

  abbrev saved : Bool → Text → Shown → Shown
  saved is_new id s = record s {
    editing = none;
    selected = some id;
    toast = some (if is_new then codes "Added" else codes "Saved");
  }

  after_save :
      Bool → Text → Shown → Result Shown × Net × Entropy → Option Text × Shown × Net × Entropy
  unfolding message_of
  after_save is_new id s (ok s', net, w) = (none, saved is_new id s', net, w)
  after_save is_new id s (throw e, net, w) = (some (message_of e), s, net, w)

  save_with_id : Bool → Result Entry → Shown → Net → Entropy → Option Text × Shown × Net × Entropy
  unfolding after_save commit put_entry
  save_with_id is_new (throw e) s net w = (some (message_of e), s, net, w)
  save_with_id is_new (ok e) s net w =
      after_save is_new e.id s (commit (put_entry e s.vault.items) s net w)

  -- The first result is the error that the editor shows.
  unfoldable pub save_entry : Entry → Shown → Net → Entropy → Option Text × Shown × Net × Entropy
  unfolding save_with_id with_id
  save_entry e s net w = let (r, w') = with_id e w in save_with_id (is_blank e.id) r s net w'

  after_delete : Text → Shown → Result Shown × Net × Entropy → Shown × Net × Entropy
  unfolding closed_if message_of
  after_delete id s (ok s', net, w) =
      (record s' { selected = closed_if id s'.selected; toast = some (codes "Deleted") }, net, w)
  after_delete id s (throw e, net, w) = (record s { shown_error = some (message_of e) }, net, w)

  -- The first argument is the answer to the question whether to delete.
  unfoldable pub delete_entry : Bool → Entry → Shown → Net → Entropy → Shown × Net × Entropy
  unfolding after_delete commit without_id
  delete_entry false e s net w = (s, net, w)
  delete_entry true e s net w =
      let g = record s { shown_error = none } in
      after_delete e.id g (commit (without_id e.id s.vault.items) g net w)

  -- The entries that a search selects, by name.
  unfoldable pub is_found : Text → Entry → Bool
  unfolding includes_text
  is_found q e =
      is_blank q
      || includes_text (p.lower e.name) q
      || includes_text (p.lower e.username) q
      || includes_text (p.lower e.url) q

  abbrev sort_key : Entry → Text
  sort_key e = elim e.name [ [] ↦ e.url | c ∷ name ↦ c ∷ name ]

  unfoldable pub filtered : (Text → Text → Bool) → Text → List Entry → List Entry
  unfolding is_found filter sort
  filtered locale_before query entries =
      sort (λ a b. locale_before (sort_key a) (sort_key b))
        (filter (is_found (p.lower query)) entries)

-- The screen on launch: the most recent vault that is still there, or the choice of one.
unfoldable pub first_screen : (Text → Bool) → List RecentVault → Screen
first_screen exists [] = start
first_screen exists (r ∷ rs) =
    let later = first_screen exists rs in if exists r.path then unlock r.path else later

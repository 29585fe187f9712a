-- ===== src/Desktop/Recents.antt =====
-- clients/apps/desktop/src/storage.ts: the list of recently opened vaults. The file that holds it is
-- read and written by the desktop shell; `none` is a read that threw or was not a list.
pub mod Ordered
use passwd.Base.{
  ℕ, Bool, ◌||◌, Option, none, some, List, [], ◌∷◌, ◌++◌, ◌==◌, if◌then◌else◌, Text, take,
}
use passwd.Base.Equality.{equal}

pub record RecentVault : Type 0 where
  pub path : Text
  pub name : Text
  pub opened_at : ℕ

abbrev is_separator : ℕ → Bool
is_separator c = c == b'\\' || c == b'/'

-- The last part of `path.split(/[\\/]/)`, with the part that has been read so far.
last_part : Text → Text → Text
last_part part [] = part
last_part part (c ∷ s) = last_part (if is_separator c then [] else part ++ (c ∷ [])) s

or_path : Text → Text → Text
or_path path [] = path
or_path path (c ∷ part) = c ∷ part

unfoldable pub basename : Text → Text
unfolding last_part or_path
basename path = or_path path (last_part [] path)

abbrev pub recents_max : ℕ
recents_max = 8

unfoldable pub read_recents : Option (List RecentVault) → List RecentVault
read_recents none = []
read_recents (some list) = list

-- `list.filter((r) => r.path !== path)`
unfoldable pub without_path : Text → List RecentVault → List RecentVault
without_path path [] = []
without_path path (r ∷ rs) =
    let rest = without_path path rs in if equal r.path path then rest else r ∷ rest

abbrev pub entry : Text → ℕ → RecentVault
entry path now = record { path = path; name = basename path; opened_at = now }

-- The list that `rememberRecent` writes.
unfoldable pub remember_recent : Text → ℕ → Option (List RecentVault) → List RecentVault
unfolding without_path read_recents
remember_recent path now file =
    take recents_max (entry path now ∷ without_path path (read_recents file))

-- The list that `clearRecents` writes.
abbrev pub clear_recents : List RecentVault
clear_recents = []

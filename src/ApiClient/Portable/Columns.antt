-- ===== src/ApiClient/Portable/Columns.antt =====
-- clients/packages/api-client/src/portable.ts: which field of an item a column or a member of an
-- imported file names, and how its value is set.
use passwd.Base.{
  Bool, true, false, ◌&&◌, ◌||◌, Option, none, some, List, [], ◌∷◌, if◌then◌else◌, leb, Text, codes,
}
use passwd.Base.Equality.{equal}
use passwd.Base.Json.{Json, string, object, Members, end_members, member, find_member, get, truthy}
use passwd.ApiClient.Fields.{text_or_blank}

-- A text of lower-case letters and digits, which `toLowerCase` keeps.
unfoldable pub is_plain : Text → Bool
is_plain [] = true
is_plain (c ∷ s) = (leb b'a' c && leb c b'z' || leb b'0' c && leb c b'9') && is_plain s

-- `ALIASES`
abbrev pub aliases : List (Text × Text)
aliases =
    (codes "name", codes "name")
    ∷ (codes "title", codes "name")
    ∷ (codes "item", codes "name")
    ∷ (codes "url", codes "url")
    ∷ (codes "uri", codes "url")
    ∷ (codes "login_uri", codes "url")
    ∷ (codes "website", codes "url")
    ∷ (codes "site", codes "url")
    ∷ (codes "username", codes "username")
    ∷ (codes "user", codes "username")
    ∷ (codes "user name", codes "username")
    ∷ (codes "login", codes "username")
    ∷ (codes "login_username", codes "username")
    ∷ (codes "email", codes "username")
    ∷ (codes "password", codes "password")
    ∷ (codes "pass", codes "password")
    ∷ (codes "login_password", codes "password")
    ∷ (codes "notes", codes "notes")
    ∷ (codes "note", codes "notes")
    ∷ (codes "comment", codes "notes")
    ∷ (codes "comments", codes "notes")
    ∷ (codes "totp", codes "totp")
    ∷ (codes "otp", codes "totp")
    ∷ (codes "login_totp", codes "totp")
    ∷ (codes "folder", codes "folder")
    ∷ (codes "group", codes "folder")
    ∷ (codes "grouping", codes "folder")
    ∷ []

unfoldable pub lookup : Text → List (Text × Text) → Option Text
unfolding equal
lookup k [] = none
lookup k ((j, f) ∷ rest) = let later = lookup k rest in if equal k j then some f else later

-- `ALIASES[lower]`. What a plain object inherits, as `constructor`, names no field either.
unfoldable pub alias_of : Text → Option Text
unfolding lookup
alias_of lower = lookup lower aliases

-- `FAVORITE_KEYS.includes(lower)`
unfoldable pub is_favorite_key : Text → Bool
unfolding equal
is_favorite_key lower =
    equal lower (codes "favorite") || equal lower (codes "favourite") || equal lower (codes "fav")

unfoldable pub includes : List Text → Text → Bool
unfolding equal
includes [] t = false
includes (s ∷ ss) t = equal s t || includes ss t

-- `obj[k] = v`
unfoldable pub set_member : Text → Json → Members → Members
unfolding equal
set_member k v end_members = member k v end_members
set_member k v (member j u ms) =
    let later = set_member k v ms in if equal k j then member j v ms else member j u later

unfoldable pub or_favorite : Text → Option Text → Option Text
unfolding is_favorite_key
or_favorite lower (some f) = some f
or_favorite lower none = if is_favorite_key lower then some (codes "favorite") else none

-- `cells[i] ?? ""`, at the front of the cells that are left, and the cells after it.
abbrev pub first_cell : List Text → Text
first_cell [] = []
first_cell (c ∷ cells) = c

abbrev pub later_cells : List Text → List Text
later_cells [] = []
later_cells (c ∷ cells) = cells

unfoldable pub set_once : Text → Text → Option Json → Members → Members
unfolding set_member
set_once f c none obj = set_member f (string c) obj
set_once f c (some v) obj = obj

-- The columns that are left, over the cells that are left: the first column of a field counts.
unfoldable pub set_columns : List (Option Text) → List Text → Members → Members
unfolding set_once find_member
set_columns [] cells obj = obj
set_columns (none ∷ cols) cells obj = set_columns cols (later_cells cells) obj
set_columns (some f ∷ cols) cells obj =
    set_columns cols (later_cells cells) (set_once f (first_cell cells) (find_member f obj) obj)

-- `if (row[k] !== undefined) flat[k] = row[k]`
unfoldable pub carry : Text → Option Json → Members → Members
unfolding set_member
carry k none flat = flat
carry k (some v) flat = set_member k v flat

unfoldable pub carried : Json → Members
unfolding carry get
carried v =
    let t = carry (codes "type") (get (codes "type") v) end_members in
    let c = carry (codes "card") (get (codes "card") v) t in
    let i = carry (codes "identity") (get (codes "identity") v) c in
    carry (codes "fields") (get (codes "fields") v) i

-- `Object.entries(row)`, less the indices of a text or an array, which name no field.
abbrev pub entries : Json → Members
entries (object ms) = ms
entries _ = end_members

-- `if (field && !flat[field]) flat[field] = ...`
unfoldable pub copy_field : Option Text → Json → Members → Members
unfolding set_member truthy find_member text_or_blank
copy_field none value flat = flat
copy_field (some f) value flat =
    if truthy (find_member f flat)
    then flat
    else set_member f (string (text_or_blank (some value))) flat

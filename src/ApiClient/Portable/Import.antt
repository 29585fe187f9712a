-- ===== src/ApiClient/Portable/Import.antt =====
-- clients/packages/api-client/src/portable.ts: the JSON export, and the import of a JSON or CSV
-- file. A row that is outside the types of the details makes the import a `TypeError`.
pub mod Rows
pub mod FromCsv
pub mod FromJson
use passwd.Base.{
  ℕ, Bool, true, false, not, ◌&&◌, ◌||◌, Option, none, some, List, [], ◌∷◌, ◌++◌, map,
  if◌then◌else◌, ◌==◌, leb, Text, codes,
}
use passwd.Base.Decimal.{decimal}
use passwd.Base.Equality.{equal}
use passwd.Base.Json.{
  Json, null, number, string, array, object, Items, end_items, item, Members, end_members, member,
  find_member, get, truthy,
}
use passwd.Base.Outcome.{Result, ok, throw, error, ◌>>=◌}
use passwd.Base.Strings.{trim}
use passwd.Crypto.Platform.{Platform}
use passwd.ApiClient.Items.{ItemFields}
use passwd.ApiClient.Fields.{fields_json, normalize_item_fields, text_or_blank}
use passwd.ApiClient.Portable.{field_names, csv_rows, is_blank}
use passwd.ApiClient.Portable.Columns.{
  alias_of, is_favorite_key, includes, set_member, or_favorite, set_columns, carried, entries,
  copy_field,
}

-- `EXPORT_FORMAT`, `EXPORT_VERSION`
abbrev pub export_format : Text
export_format = codes "passwd-export"

abbrev pub export_version : ℕ
export_version = 2

abbrev has_fields : {A : Type 0} → List A → Bool
has_fields [] = false
has_fields (f ∷ fs) = true

unfoldable pub non_empty : ItemFields → Bool
non_empty i =
    not (is_blank i.name)
    || not (is_blank i.username)
    || not (is_blank i.password)
    || not (is_blank i.url)
    || not (is_blank i.notes)
    || not (is_blank i.totp)
    || not (is_blank i.card.number)
    || not (is_blank i.identity.full_name)
    || not (is_blank i.identity.email)
    || has_fields i.fields

-- `.filter(nonEmpty)`
unfoldable pub keep_non_empty : List ItemFields → List ItemFields
unfolding non_empty
keep_non_empty [] = []
keep_non_empty (i ∷ is) = let rest = keep_non_empty is in if non_empty i then i ∷ rest else rest

-- A list of items, unless it is empty.
unfoldable pub or_no_items : List ItemFields → Result (List ItemFields)
or_no_items [] = throw (error (codes "no items found in the file"))
or_no_items (i ∷ is) = ok (i ∷ is)

abbrev pub outside_types : {A : Type 0} → Result A
outside_types = throw (error (codes "TypeError"))

module _ (p : Platform) where
  unfoldable pub column : Text → Option Text
  unfolding alias_of or_favorite
  column h = let lower = p.lower (trim h) in or_favorite lower (alias_of lower)

  unfoldable pub copy_entry : Text → Json → Members → Members
  unfolding is_favorite_key set_member copy_field includes alias_of
  copy_entry key value flat =
      let lower = p.lower (trim key) in
      if is_favorite_key lower
      then set_member (codes "favorite") value flat
      else copy_field (if includes field_names key then some key else alias_of lower) value flat

  unfoldable pub copy_entries : Members → Members → Members
  unfolding copy_entry
  copy_entries end_members flat = flat
  copy_entries (member key value ms) flat = copy_entries ms (copy_entry key value flat)

  or_outside : Option ItemFields → Result ItemFields
  or_outside none = outside_types
  or_outside (some i) = ok i

  -- A null row has no members to read.
  unfoldable pub normalize : Json → Result ItemFields
  unfolding or_outside copy_entries carried
  normalize null = outside_types
  normalize row =
      or_outside (normalize_item_fields p (object (copy_entries (entries row) (carried row))))

  unfoldable pub normalize_each : Items → Result (List ItemFields)
  unfolding normalize
  normalize_each end_items = ok []
  normalize_each (item v vs) = do i ← normalize v; is ← normalize_each vs; ok (i ∷ is)

  -- The members of each row of cells, normalized.
  unfoldable pub normalize_rows : List (Option Text) → List (List Text) → Result (List ItemFields)
  unfolding normalize set_columns
  normalize_rows cols [] = ok []
  normalize_rows cols (cells ∷ rows) = do
    i ← normalize (object (set_columns cols cells end_members))
    is ← normalize_rows cols rows
    ok (i ∷ is)

  -- The rows of a table, whose first row names the columns.
  unfoldable pub read_rows : List (List Text) → Result (List ItemFields)
  unfolding normalize_rows column keep_non_empty
  read_rows [] = ok []
  read_rows (header ∷ rows) = do
    is ← normalize_rows (map column header) rows
    ok (keep_non_empty is)

  unfoldable pub parse_csv : Text → Result (List ItemFields)
  unfolding csv_rows read_rows
  parse_csv text = read_rows (csv_rows text)

  abbrev unrecognized : Result Items
  unrecognized = throw (error (codes "unrecognized JSON: expected an array of items"))

  or_unrecognized : Option Json → Result Items
  or_unrecognized (some (array vs)) = ok vs
  or_unrecognized _ = unrecognized

  -- The array of items, or the one under `items`; a null value has no members to read.
  unfoldable pub rows_of : Json → Result Items
  unfolding or_unrecognized get
  rows_of (array vs) = ok vs
  rows_of null = outside_types
  rows_of v = or_unrecognized (get (codes "items") v)

  parse_value : Option Json → Result (List ItemFields)
  unfolding rows_of normalize_each keep_non_empty
  parse_value none = throw (error (codes "the file is not valid JSON"))
  parse_value (some v) = do vs ← rows_of v; is ← normalize_each vs; ok (keep_non_empty is)

  unfoldable pub parse_json : Text → Result (List ItemFields)
  unfolding parse_value
  parse_json text = parse_value (p.parse_json text)

  parse_trimmed : Text → Result (List ItemFields)
  unfolding parse_json parse_csv or_no_items
  parse_trimmed [] = throw (error (codes "the file is empty"))
  parse_trimmed (c ∷ s) =
      (if c == b'{' || c == b'[' then parse_json (c ∷ s) else parse_csv (c ∷ s)) >>= or_no_items

  unfoldable pub parse_vault_import : Text → Result (List ItemFields)
  unfolding parse_trimmed trim
  parse_vault_import text = parse_trimmed (trim text)

  -- The items of the export, as they are written.
  unfoldable pub item_elements : List ItemFields → Result Items
  unfolding or_outside
  item_elements [] = ok end_items
  item_elements (i ∷ is) = do
    j ← or_outside (normalize_item_fields p (fields_json i))
    rest ← item_elements is
    ok (item (fields_json j) rest)

  abbrev pub export_members : Items → Members
  export_members vs = member (codes "format") (string export_format) (
      member (codes "version") (number (decimal export_version))
        (member (codes "items") (array vs) end_members))

  abbrev pub export_json : Items → Json
  export_json vs = object (export_members vs)

  unfoldable pub to_plaintext_json : List ItemFields → Result Text
  unfolding item_elements
  to_plaintext_json items = do vs ← item_elements items; ok (p.stringify_indented (export_json vs))

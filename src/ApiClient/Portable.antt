-- ===== src/ApiClient/Portable.antt =====
-- clients/packages/api-client/src/portable.ts: the CSV export, and the reader of CSV rows.
pub mod Newlines
pub mod Cells
pub mod RoundTrip
pub mod Import
pub mod Columns
use passwd.Base.{
  ℕ, ◌≡◌, Bool, true, false, not, ◌&&◌, ◌||◌, Option, none, some, List, [], ◌∷◌, ◌++◌, map, ◌==◌,
  if◌then◌else◌, Text, codes,
}
use passwd.Base.Strings.{join}
use passwd.ApiClient.Items.{ItemFields}

-- `FIELDS`
abbrev pub field_names : List Text
field_names =
    codes "name"
    ∷ codes "url"
    ∷ codes "username"
    ∷ codes "password"
    ∷ codes "totp"
    ∷ codes "notes"
    ∷ codes "folder"
    ∷ []

abbrev pub is_special : ℕ → Bool
is_special c = c == b'"' || c == b',' || c == 13 || c == 10

-- Whether the text matches `/[",\r\n]/`.
unfoldable pub has_special : Text → Bool
has_special [] = false
has_special (c ∷ s) = is_special c || has_special s

-- `v.replace(/"/g, '""')`
unfoldable pub double_quotes : Text → Text
double_quotes [] = []
double_quotes (c ∷ s) =
    let rest = double_quotes s in if c == b'"' then b'"' ∷ b'"' ∷ rest else c ∷ rest

unfoldable pub csv_escape : Text → Text
unfolding has_special double_quotes
csv_escape v = if has_special v then b'"' ∷ (double_quotes v ++ (b'"' ∷ [])) else v

-- The cells of an item's row, in the order of the header.
abbrev pub item_cells : ItemFields → List Text
item_cells i =
    i.name
    ∷ i.url
    ∷ i.username
    ∷ i.password
    ∷ i.totp
    ∷ i.notes
    ∷ i.folder
    ∷ (if i.favorite then codes "1" else [])
    ∷ []

abbrev pub header_cells : List Text
header_cells = field_names ++ (codes "favorite" ∷ [])

-- `cells.join(",")` with every cell escaped. The header's cells and `"1"` hold no special
-- character, so escaping leaves them as they are.
unfoldable pub csv_row : List Text → Text
csv_row cells = join b',' (map csv_escape cells)

-- `rows.join("\r\n")`
unfoldable pub join_rows : List Text → Text
join_rows [] = []
join_rows (r ∷ []) = r
join_rows (r ∷ s ∷ rows) = r ++ (13 ∷ 10 ∷ join_rows (s ∷ rows))

unfoldable pub to_csv : List ItemFields → Text
to_csv items = join_rows (map csv_row (header_cells ∷ map item_cells items))

unfoldable pub starts_with : ℕ → Text → Bool
starts_with c [] = false
starts_with c (d ∷ s) = d == c

-- `text.replace(/\r\n/g, "\n")`: a carriage return in front of a line feed is dropped.
unfoldable pub replace_crlf : Text → Text
unfolding starts_with
replace_crlf [] = []
replace_crlf (c ∷ s) =
    let rest = replace_crlf s in if c == 13 && starts_with 10 s then rest else c ∷ rest

-- `.replace(/\r/g, "\n")`
abbrev pub replace_cr : Text → Text
replace_cr s = map (λ c. if c == 13 then 10 else c) s

unfoldable pub newlines : Text → Text
newlines s = replace_cr (replace_crlf s)

-- The variables of `csvRows`. After a doubled quote the loop's index is advanced once more:
-- `skip` says that the next character is passed over.
pub record Reader : Type 0 where
  pub rows : List (List Text)
  pub row : List Text
  pub cell : Text
  pub quoted : Bool
  pub skip : Bool

abbrev pub start : Reader
start = record { rows = []; row = []; cell = []; quoted = false; skip = false }

abbrev has_no_cells : List Text → Bool
has_no_cells [] = true
has_no_cells (c ∷ row) = false

abbrev pub is_blank : Text → Bool
is_blank [] = true
is_blank (c ∷ s) = false

-- `row.some((c) => c !== "")`
unfoldable pub has_text : List Text → Bool
has_text [] = false
has_text (c ∷ row) = not (is_blank c) || has_text row

-- The row is pushed unless all its cells are blank.
unfoldable pub push_row : List Text → List (List Text) → List (List Text)
unfolding has_text
push_row row rows = if has_text row then rows ++ (row ∷ []) else rows

-- One turn of the loop, at a character and the text after it.
unfoldable pub read_char : ℕ → Text → Reader → Reader
unfolding push_row starts_with
read_char ch next r =
    if r.skip
    then record r { skip = false }
    else if r.quoted
    then (if ch == b'"'
        then (if starts_with b'"' next
            then record r { cell = r.cell ++ (b'"' ∷ []); skip = true }
            else record r { quoted = false })
        else record r { cell = r.cell ++ (ch ∷ []) })
    else if ch == b'"'
    then record r { quoted = true }
    else if ch == b','
    then record r { row = r.row ++ (r.cell ∷ []); cell = [] }
    else if ch == 10
    then record r { rows = push_row (r.row ++ (r.cell ∷ [])) r.rows; row = []; cell = [] }
    else record r { cell = r.cell ++ (ch ∷ []) }

unfoldable pub read_chars : Text → Reader → Reader
unfolding read_char
read_chars [] r = r
read_chars (ch ∷ s) r = read_chars s (read_char ch s r)

-- After the loop: a last row without a line feed.
unfoldable pub finish : Reader → List (List Text)
unfolding push_row
finish r =
    if not (is_blank r.cell) || not (has_no_cells r.row)
    then push_row (r.row ++ (r.cell ∷ [])) r.rows
    else r.rows

unfoldable pub csv_rows : Text → List (List Text)
unfolding newlines read_chars finish
csv_rows text = finish (read_chars (newlines text) start)

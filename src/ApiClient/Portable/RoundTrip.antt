-- ===== src/ApiClient/Portable/RoundTrip.antt =====
-- Exported CSV texts, read as a table.
use passwd.Base.{
  ◌≡◌, ◌≢◌, refl, false, List, [], ◌∷◌, ◌++◌, map, append_assoc, append-nil, if◌then◌else◌, Text,
  arith, All, Bool-cases, inl, inr, ◌∙◌, sym,
}
use passwd.Base.Strings.{join}
use passwd.ApiClient.Items.{ItemFields}
use passwd.ApiClient.Portable.{
  csv_escape, csv_row, join_rows, to_csv, item_cells, header_cells, starts_with, newlines,
  replace_crlf, has_text, push_row, read_char, read_chars, finish, csv_rows,
}
use passwd.ApiClient.Portable.Newlines.{newlines-other}
use passwd.ApiClient.Portable.Cells.{reading, read_cell}

-- The rows that have a cell with text in it.
unfoldable pub rows_with_text : List (List Text) → List (List Text)
rows_with_text [] = []
rows_with_text (r ∷ rows) = let rest = rows_with_text rows in if has_text r then r ∷ rest else rest

newlines-crlf : (s : Text) → newlines (13 ∷ 10 ∷ s) ≡ 10 ∷ newlines s
unfolding newlines replace_crlf starts_with
newlines-crlf s = refl

csv_row-cons :
    (c d : Text) (cs : List Text) (s : Text)
    → csv_row (c ∷ d ∷ cs) ++ s ≡ csv_escape c ++ (b',' ∷ (csv_row (d ∷ cs) ++ s))
unfolding csv_row join
csv_row-cons c d cs s = append_assoc (csv_escape c) _ s

-- A comma ends a cell.
read_comma :
    (rows : List (List Text)) (row : List Text) (c s : Text)
    → read_chars (newlines (csv_escape c ++ (b',' ∷ s))) (reading rows row [] false)
      ≡ read_chars (newlines s) (reading rows (row ++ (newlines c ∷ [])) [] false)
unfolding read_chars read_char starts_with
read_comma rows row c s =
    rw
      (
        read_cell rows row c (b',' ∷ s) refl (rw (newlines-other b',' s (omega arith)) refl),
        newlines-other b',' s (omega arith),
      )
      refl

-- A row with a line end behind it is pushed.
read_row :
    (rows : List (List Text)) (row : List Text) (c : Text) (cs : List Text) (s : Text)
    → read_chars (newlines (csv_row (c ∷ cs) ++ (13 ∷ 10 ∷ s))) (reading rows row [] false)
      ≡ read_chars (newlines s) (reading (push_row (row ++ map newlines (c ∷ cs)) rows) [] [] false)
unfolding csv_row join starts_with newlines replace_crlf read_chars read_char
read_row rows row c [] s = read_cell rows row c (13 ∷ 10 ∷ s) refl refl
read_row rows row c (d ∷ cs) s =
    rw
      (
        csv_row-cons c d cs (13 ∷ 10 ∷ s),
        read_comma rows row c (csv_row (d ∷ cs) ++ (13 ∷ 10 ∷ s)),
        read_row rows (row ++ (newlines c ∷ [])) d cs s,
        append_assoc row (newlines c ∷ []) (map newlines (d ∷ cs)),
      )
      refl

finish_cell :
    (rows : List (List Text)) (row : List Text) (c : Text)
    → finish (reading rows row c false) ≡ push_row (row ++ (c ∷ [])) rows
unfolding finish push_row has_text
finish_cell rows [] [] = refl
finish_cell rows [] (k ∷ c) = refl
finish_cell rows (x ∷ row) [] = refl
finish_cell rows (x ∷ row) (k ∷ c) = refl

-- The last row is pushed at the end of the text.
finish_row :
    (rows : List (List Text)) (row : List Text) (c : Text) (cs : List Text)
    → finish (read_chars (newlines (csv_row (c ∷ cs))) (reading rows row [] false))
      ≡ push_row (row ++ map newlines (c ∷ cs)) rows
unfolding csv_row join
finish_row rows row c [] =
    let read : read_chars (newlines (csv_escape c)) (reading rows row [] false)
        ≡ reading rows row (newlines c) false =
      unfold read_chars newlines replace_crlf in
      rw (append-nil (csv_escape c)) at (
        read_cell rows row c [] (unfold starts_with in refl)
          (unfold newlines replace_crlf starts_with in refl)) in
    rw read (finish_cell rows row (newlines c))
finish_row rows row c (d ∷ cs) =
    rw
      (
        read_comma rows row c (csv_row (d ∷ cs)),
        finish_row rows (row ++ (newlines c ∷ [])) d cs,
        append_assoc row (newlines c ∷ []) (map newlines (d ∷ cs)),
      )
      refl

push_row-append :
    (r : List Text) (done rest : List (List Text))
    → push_row r done ++ rest ≡ done ++ (if has_text r then r ∷ rest else rest)
unfolding push_row
push_row-append r done rest = elim (Bool-cases (has_text r)) [
  | inl e ↦ rw (e, append_assoc done (r ∷ []) rest) refl
  | inr e ↦ rw e refl
]

-- A table of rows that each have a cell.
pub read_table :
    (done : List (List Text)) (c : Text) (cs : List Text) (rows : List (List Text))
    → All (λ r. r ≢ []) rows
    → finish (
        read_chars
          (newlines (join_rows (map csv_row ((c ∷ cs) ∷ rows))))
          (reading done [] [] false))
      ≡ done ++ rows_with_text (map (map newlines) ((c ∷ cs) ∷ rows))
unfolding join_rows rows_with_text
read_table done c cs [] h =
    finish_row done [] c cs
    ∙ (sym (append-nil (push_row (map newlines (c ∷ cs)) done))
        ∙ push_row-append (map newlines (c ∷ cs)) done [])
read_table done c cs ([] ∷ rows) (h, hs) = absurd (h refl)
read_table done c cs ((d ∷ ds) ∷ rows) (h, hs) =
    rw
      (
        read_row done [] c cs (join_rows (map csv_row ((d ∷ ds) ∷ rows))),
        read_table (push_row (map newlines (c ∷ cs)) done) d ds rows hs,
      )
      (push_row-append (map newlines (c ∷ cs)) done
        (rows_with_text (map (map newlines) ((d ∷ ds) ∷ rows))))

item_cells-ne-nil : (items : List ItemFields) → All (λ r. r ≢ []) (map item_cells items)
item_cells-ne-nil [] = tt
item_cells-ne-nil (i ∷ items) = (λ e. cc, item_cells-ne-nil items)

header-kept :
    (rows : List (List Text))
    → rows_with_text (map newlines header_cells ∷ rows) ≡ header_cells ∷ rows_with_text rows
unfolding rows_with_text has_text newlines replace_crlf starts_with
header-kept rows = refl

-- The rows of an exported vault are read back: the header, and the cells of each item that has one
-- that is not empty. Line ends within a cell come back as line feeds, and nothing else changes.
pub csv_rows-to_csv :
    (items : List ItemFields)
    → csv_rows (to_csv items)
      ≡ header_cells ∷ rows_with_text (map (map newlines) (map item_cells items))
unfolding csv_rows to_csv
csv_rows-to_csv items =
    read_table [] _ _ (map item_cells items) (item_cells-ne-nil items)
    ∙ header-kept (map (map newlines) (map item_cells items))

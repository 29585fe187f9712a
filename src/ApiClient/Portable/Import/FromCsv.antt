-- ===== src/ApiClient/Portable/Import/FromCsv.antt =====
-- CSV exports, imported.
use passwd.Base.{
  ℕ, ◌≡◌, refl, ap, ◌∙◌, sym, false, List, [], ◌∷◌, ◌++◌, map, append_assoc, if◌then◌else◌, true,
  Text, codes, Bool,
}
use passwd.Base.Outcome.{ok}
use passwd.Base.Strings.{trim, trim-kept, is_space, join}
use passwd.Crypto.Platform.{Platform}
use passwd.ApiClient.Items.{ItemFields}
use passwd.ApiClient.Portable.{
  to_csv, csv_row, join_rows, csv_escape, item_cells, header_cells, has_special,
}
use passwd.ApiClient.Portable.RoundTrip.{csv_rows-to_csv}
use passwd.ApiClient.Portable.Import.{
  read_rows, parse_csv, parse_vault_import, parse_trimmed, or_no_items, keep_non_empty,
}
use passwd.ApiClient.Portable.Columns.{is_plain}
use passwd.ApiClient.Portable.Import.Rows.{
  csv_view, columns-header, normalize_rows-views, keep_non_empty-views,
}

-- A text whose last character is not white space.
record EndsWell (t : Text) : Type 0 where
  front : Text
  last : ℕ
  splits : t ≡ front ++ (last ∷ [])
  visible : is_space last ≡ false

EndsWell-append : (a t : Text) → EndsWell t → EndsWell (a ++ t)
EndsWell-append a t h = record {
  front = a ++ h.front;
  last = h.last;
  splits = ap (λ u. a ++ u) h.splits ∙ sym (append_assoc a h.front (h.last ∷ []));
  visible = h.visible;
}

-- A cell in front of the rest of its row.
EndsWell-cell : (a t : Text) → EndsWell t → EndsWell (csv_escape a ++ (b',' ∷ t))
EndsWell-cell a t h = EndsWell-append (csv_escape a) (b',' ∷ t) (EndsWell-append (b',' ∷ []) t h)

-- The last two cells of a row.
EndsWell-mark :
    (favorite : Bool) → EndsWell (b',' ∷ csv_escape (if favorite then codes "1" else []))
unfolding csv_escape has_special is_space
EndsWell-mark true = record { front = b',' ∷ []; last = b'1'; splits = refl; visible = refl }
EndsWell-mark false = record { front = []; last = b','; splits = refl; visible = refl }

EndsWell-item : (i : ItemFields) → EndsWell (csv_row (item_cells i))
unfolding csv_row join
EndsWell-item i = EndsWell-cell i.name _ (
    EndsWell-cell i.url _ (
      EndsWell-cell i.username _ (
        EndsWell-cell i.password _ (
          EndsWell-cell i.totp _ (
            EndsWell-cell i.notes _
              (EndsWell-append (csv_escape i.folder) _ (EndsWell-mark i.favorite)))))))

EndsWell-header : EndsWell (csv_row header_cells)
unfolding csv_row join csv_escape has_special is_space
EndsWell-header = record {
  front = codes "name,url,username,password,totp,notes,folder,favorit";
  last = b'e';
  splits = refl;
  visible = refl;
}

EndsWell-rows :
    (r : Text) (is : List ItemFields)
    → EndsWell r
    → EndsWell (join_rows (r ∷ map csv_row (map item_cells is)))
unfolding join_rows
EndsWell-rows r [] h = h
EndsWell-rows r (i ∷ is) h =
    EndsWell-append r _ (
      EndsWell-append (13 ∷ 10 ∷ []) _
        (EndsWell-rows (csv_row (item_cells i)) is (EndsWell-item i)))

-- The export begins with the name of its first column.
to_csv-cons : (is : List ItemFields) → (s : Text) × (to_csv is ≡ b'n' ∷ s)
unfolding to_csv join_rows csv_row join csv_escape has_special
to_csv-cons [] = (_, refl)
to_csv-cons (i ∷ is) = (_, refl)

to_csv-EndsWell : (is : List ItemFields) → EndsWell (to_csv is)
unfolding to_csv
to_csv-EndsWell is = EndsWell-rows (csv_row header_cells) is EndsWell-header

trim-to_csv : (is : List ItemFields) → trim (to_csv is) ≡ to_csv is
trim-to_csv is =
    let (s, e) = to_csv-cons is in
    let h = to_csv-EndsWell is in
    rw e (trim-kept b'n' h.last s h.front (sym e ∙ h.splits) (unfold is_space in refl) h.visible)

module _ (p : Platform) (keeps : (s : Text) → is_plain s ≡ true → p.lower s ≡ s) where
  parse_csv-to_csv :
      (is : List ItemFields) → parse_csv p (to_csv is) ≡ ok (keep_non_empty (map csv_view is))
  unfolding parse_csv read_rows
  parse_csv-to_csv is =
      rw (csv_rows-to_csv is, columns-header p keeps, normalize_rows-views p keeps is)
        (ap ok (keep_non_empty-views p keeps is))

  parse_n :
      (s t : Text) (is : List ItemFields)
      → t ≡ b'n' ∷ s
      → parse_csv p t ≡ ok is
      → parse_trimmed p t ≡ or_no_items is
  unfolding parse_trimmed
  parse_n s t is e h =
      let parses : parse_csv p (b'n' ∷ s) ≡ ok is = rw e at h in rw e (rw parses refl)

  -- Importing a CSV export gives every item as a login with its flat fields and its favourite mark,
  -- with line feeds for the line ends within a field, but for the items whose name, username,
  -- password, address, notes and one-time secret are all blank, which are left out: an export without
  -- any other is refused as a file without items. Lower-casing keeps a text of lower-case letters and
  -- digits.
  pub parse_vault_import-to_csv :
      (items : List ItemFields)
      → parse_vault_import p (to_csv items) ≡ or_no_items (keep_non_empty (map csv_view items))
  unfolding parse_vault_import
  parse_vault_import-to_csv items =
      let (s, e) = to_csv-cons items in
      rw (trim-to_csv items) (parse_n s (to_csv items) _ e (parse_csv-to_csv items))

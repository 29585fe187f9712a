-- ===== src/ApiClient/Portable/Import/Rows.antt =====
-- The rows of exported CSV texts.
use passwd.Base.{
  ◌≡◌, refl, Bool, true, false, ◌||◌, Option, some, List, [], ◌∷◌, map, if◌then◌else◌, Text, codes,
  Bool-cases, inl, inr, ◌∙◌, not,
}
use passwd.Base.Equality.{equal}
use passwd.Base.Json.{
  object, Members, member, string, end_members, is_string, find_member, get, truthy, to_text,
}
use passwd.Base.Outcome.{ok}
use passwd.Base.Strings.{trim}
use passwd.Crypto.Platform.{Platform}
use passwd.ApiClient.Items.{ItemFields, login, blank_fields}
use passwd.ApiClient.Fields.{
  normalize_item_fields, text_or_blank, read_card, read_identity, read_type, read_fields,
  read_favorite, any_text, detail, spread_member,
}
use passwd.ApiClient.Portable.{
  item_cells, header_cells, is_blank, newlines, replace_crlf, has_text, starts_with,
}
use passwd.ApiClient.Portable.RoundTrip.{rows_with_text}
use passwd.ApiClient.Portable.Import.{
  normalize, normalize_rows, copy_entries, copy_entry, or_outside, column, non_empty,
  keep_non_empty,
}
use passwd.ApiClient.Portable.Columns.{
  carried, carry, copy_field, is_favorite_key, includes, alias_of, lookup, set_member, set_columns,
  set_once, or_favorite, is_plain,
}

-- What a CSV row keeps of an item: a login with the flat fields, whose line ends are line feeds.
abbrev pub csv_view : ItemFields → ItemFields
csv_view i = record (blank_fields login) {
  name = newlines i.name;
  username = newlines i.username;
  password = newlines i.password;
  url = newlines i.url;
  totp = newlines i.totp;
  notes = newlines i.notes;
  favorite = i.favorite;
  folder = newlines i.folder;
}

abbrev pub columns : List (Option Text)
columns = map some header_cells

-- The cells in the order of a row, and in the order in which an import looks at them.
reordered :
    (name url username password totp notes folder favorite : Bool)
    → name
        || (url || (username || (password || (totp || (notes || (folder || (favorite || false)))))))
      ≡ false
    → name || username || password || url || notes || totp || false || false || false || false
      ≡ false
reordered true url username password totp notes folder favorite h = cc
reordered false true username password totp notes folder favorite h = cc
reordered false false true password totp notes folder favorite h = cc
reordered false false false true totp notes folder favorite h = cc
reordered false false false false true notes folder favorite h = cc
reordered false false false false false true folder favorite h = cc
reordered false false false false false false folder favorite h = refl

abbrev with_text : Text → Bool
with_text t = not (is_blank (newlines t))

-- A row without text is of an item that an import drops.
non_empty-no_text :
    (i : ItemFields)
    → has_text (map newlines (item_cells i)) ≡ false
    → non_empty (csv_view i) ≡ false
unfolding has_text non_empty
non_empty-no_text i h =
    reordered (with_text i.name) (with_text i.url) (with_text i.username) (with_text i.password)
      (with_text i.totp) (with_text i.notes) (with_text i.folder)
      (with_text (if i.favorite then codes "1" else [])) h

-- The members that a row of cells gives.
abbrev row_members : ItemFields → Members
row_members i = member (codes "name") (string (newlines i.name)) (
    member (codes "url") (string (newlines i.url)) (
      member (codes "username") (string (newlines i.username)) (
        member (codes "password") (string (newlines i.password)) (
          member (codes "totp") (string (newlines i.totp)) (
            member (codes "notes") (string (newlines i.notes)) (
              member (codes "folder") (string (newlines i.folder)) (
                member (codes "favorite") (string (if i.favorite then codes "1" else []))
                  end_members)))))))

newlines-mark :
    (favorite : Bool)
    → newlines (if favorite then codes "1" else []) ≡ (if favorite then codes "1" else [])
unfolding newlines replace_crlf starts_with
newlines-mark true = refl
newlines-mark false = refl

set_columns-cells :
    (i : ItemFields) → set_columns columns (map newlines (item_cells i)) end_members ≡ row_members i
unfolding set_columns set_once set_member find_member equal
set_columns-cells i = rw (newlines-mark i.favorite) refl

module _ (p : Platform) (keeps : (s : Text) → is_plain s ≡ true → p.lower s ≡ s) where
  pub columns-header : map (column p) header_cells ≡ columns
  unfolding column or_favorite alias_of lookup equal is_favorite_key trim is_plain
  columns-header =
      rw
        (
          keeps (codes "name") refl,
          keeps (codes "url") refl,
          keeps (codes "username") refl,
          keeps (codes "password") refl,
          keeps (codes "totp") refl,
          keeps (codes "notes") refl,
          keeps (codes "folder") refl,
          keeps (codes "favorite") refl,
        )
        refl

  copy_entries-row :
      (i : ItemFields)
      → normalize p (object (row_members i))
        ≡ or_outside p (normalize_item_fields p (object (row_members i)))
  unfolding normalize copy_entries copy_entry copy_field carried carry is_favorite_key includes
      alias_of lookup set_member trim find_member get equal truthy text_or_blank to_text or_outside
      is_plain
  copy_entries-row i =
      rw
        (
          keeps (codes "name") refl,
          keeps (codes "url") refl,
          keeps (codes "username") refl,
          keeps (codes "password") refl,
          keeps (codes "totp") refl,
          keeps (codes "notes") refl,
          keeps (codes "folder") refl,
          keeps (codes "favorite") refl,
        )
        refl

  read_favorite-mark :
      (favorite : Bool)
      → read_favorite p (some (string (if favorite then codes "1" else []))) ≡ favorite
  unfolding read_favorite any_text to_text equal is_plain
  read_favorite-mark true = rw (keeps (codes "1") refl) refl
  read_favorite-mark false = rw (keeps [] refl) refl

  normalize_item_fields-row :
      (i : ItemFields) → normalize_item_fields p (object (row_members i)) ≡ some (csv_view i)
  unfolding normalize_item_fields read_card read_identity read_type read_fields detail spread_member
      is_string find_member get equal text_or_blank to_text
  normalize_item_fields-row i = rw (read_favorite-mark i.favorite) refl

  pub normalize-row :
      (i : ItemFields)
      → normalize p (object (set_columns columns (map newlines (item_cells i)) end_members))
        ≡ ok (csv_view i)
  unfolding or_outside
  normalize-row i =
      rw (set_columns-cells i) (copy_entries-row i ∙ rw (normalize_item_fields-row i) refl)

  -- The views of the items whose rows have text.
  unfoldable pub views_with_text : List ItemFields → List ItemFields
  views_with_text [] = []
  views_with_text (i ∷ is) =
      let rest = views_with_text is in
      if has_text (map newlines (item_cells i)) then csv_view i ∷ rest else rest

  pub normalize_rows-views :
      (is : List ItemFields)
      → normalize_rows p columns (rows_with_text (map (map newlines) (map item_cells is)))
        ≡ ok (views_with_text is)
  unfolding normalize_rows rows_with_text views_with_text
  normalize_rows-views [] = refl
  normalize_rows-views (i ∷ is) = elim (Bool-cases (has_text (map newlines (item_cells i)))) [
    | inl text ↦ rw (text, normalize-row i, normalize_rows-views is) refl
    | inr blank ↦ rw (blank, normalize_rows-views is) refl
  ]

  pub keep_non_empty-views :
      (is : List ItemFields)
      → keep_non_empty (views_with_text is) ≡ keep_non_empty (map csv_view is)
  unfolding keep_non_empty views_with_text
  keep_non_empty-views [] = refl
  keep_non_empty-views (i ∷ is) = elim (Bool-cases (has_text (map newlines (item_cells i)))) [
    | inl text ↦ rw (text, keep_non_empty-views is) refl
    | inr blank ↦ rw (blank, non_empty-no_text i blank, keep_non_empty-views is) refl
  ]

-- ===== src/ApiClient/Portable/Import/FromJson.antt =====
-- JSON exports, imported.
use passwd.Base.{◌≡◌, refl, true, some, List, [], ◌∷◌, ◌++◌, Text, codes}
use passwd.Base.Equality.{equal}
use passwd.Base.Json.{
  Json, IsStable, IsStableItems, object, Items, end_items, item, Members, find_member, get, truthy,
  string, boolean, array, member, end_members,
}
use passwd.Base.Outcome.{ok}
use passwd.Base.Strings.{trim, trim-kept, is_space}
use passwd.Crypto.Platform.{Platform}
use passwd.ApiClient.Items.{ItemFields}
use passwd.ApiClient.Fields.{
  fields_json, normalize_item_fields, text_or_blank, type_name, card_json, identity_json,
  custom_fields_json,
}
use passwd.ApiClient.Fields.RoundTrip.{normalize-fields_json, fields_json-IsStable}
use passwd.ApiClient.Portable.Import.{
  normalize, copy_entries, copy_entry, or_outside, item_elements, normalize_each, export_members,
  export_json, parse_json, parse_value, rows_of, or_unrecognized, keep_non_empty,
  parse_vault_import, parse_trimmed, or_no_items, to_plaintext_json,
}
use passwd.ApiClient.Portable.Columns.{
  carried, carry, copy_field, is_favorite_key, includes, alias_of, is_plain, lookup, set_member,
}

-- The fields, in the order in which an import sets them.
abbrev flat_json : ItemFields → Json
flat_json f = object (
    member (codes "type") (string (type_name f.type)) (
      member (codes "card") (card_json f.card) (
        member (codes "identity") (identity_json f.identity) (
          member (codes "fields") (array (custom_fields_json f.fields)) (
            member (codes "name") (string f.name) (
              member (codes "username") (string f.username) (
                member (codes "password") (string f.password) (
                  member (codes "url") (string f.url) (
                    member (codes "totp") (string f.totp) (
                      member (codes "notes") (string f.notes) (
                        member (codes "favorite") (boolean f.favorite)
                          (member (codes "folder") (string f.folder) end_members))))))))))))

-- The names of the members do not depend on their order.
normalize-flat_json :
    (p : Platform) (f : ItemFields)
    → normalize_item_fields p (flat_json f) ≡ normalize_item_fields p (fields_json f)
unfolding normalize_item_fields get find_member equal
normalize-flat_json p f = refl

-- The array of an export.
unfoldable pub elements : List ItemFields → Items
elements [] = end_items
elements (f ∷ fs) = item (fields_json f) (elements fs)

-- The indented JSON of an object, between its braces.
abbrev pub Braced : Platform → Members → Type 0
Braced p ms = (s : Text) × (p.stringify_indented (object ms) ≡ b'{' ∷ (s ++ (b'}' ∷ [])))

module _ (p : Platform) (keeps : (s : Text) → is_plain s ≡ true → p.lower s ≡ s) where
  kept_fields : (f : ItemFields) → normalize_item_fields p (fields_json f) ≡ some f
  unfolding is_plain
  kept_fields f = normalize-fields_json p f (keeps (codes "false") refl)

  normalize-kept : (f : ItemFields) → normalize p (fields_json f) ≡ ok f
  unfolding normalize copy_entries copy_entry copy_field carried carry is_favorite_key includes
      alias_of lookup set_member trim find_member get equal truthy text_or_blank or_outside is_plain
  normalize-kept f =
      rw
        (
          keeps (codes "type") refl,
          keeps (codes "name") refl,
          keeps (codes "username") refl,
          keeps (codes "password") refl,
          keeps (codes "url") refl,
          keeps (codes "totp") refl,
          keeps (codes "notes") refl,
          keeps (codes "card") refl,
          keeps (codes "identity") refl,
          keeps (codes "fields") refl,
          keeps (codes "favorite") refl,
          keeps (codes "folder") refl,
        )
        (rw (normalize-flat_json p f, kept_fields f) refl)

  item_elements-kept : (fs : List ItemFields) → item_elements p fs ≡ ok (elements fs)
  unfolding item_elements elements or_outside
  item_elements-kept [] = refl
  item_elements-kept (f ∷ fs) = rw (kept_fields f, item_elements-kept fs) refl

  normalize_each-elements : (fs : List ItemFields) → normalize_each p (elements fs) ≡ ok fs
  unfolding normalize_each elements
  normalize_each-elements [] = refl
  normalize_each-elements (f ∷ fs) = rw (normalize-kept f, normalize_each-elements fs) refl

  elements-IsStable : (fs : List ItemFields) → IsStableItems (elements fs)
  unfolding elements
  elements-IsStable [] = tt
  elements-IsStable (f ∷ fs) = (fields_json-IsStable f, elements-IsStable fs)

  export_json-IsStable : (fs : List ItemFields) → IsStable (export_json p (elements fs))
  unfolding find_member equal
  export_json-IsStable fs = (refl, tt, (refl, (2, refl), (refl, elements-IsStable fs, tt)))

  parse_json-export :
      (fs : List ItemFields) (s : Text)
      → p.parse_json s ≡ some (export_json p (elements fs))
      → parse_json p s ≡ ok (keep_non_empty fs)
  unfolding parse_json parse_value rows_of get find_member equal or_unrecognized
  parse_json-export fs s e = rw (e, normalize_each-elements fs) refl

  parse_braced :
      (fs : List ItemFields) (s : Text)
      → parse_json p (b'{' ∷ (s ++ (b'}' ∷ []))) ≡ ok (keep_non_empty fs)
      → parse_vault_import p (b'{' ∷ (s ++ (b'}' ∷ []))) ≡ or_no_items (keep_non_empty fs)
  unfolding parse_vault_import parse_trimmed
  parse_braced fs s e =
      rw
        (
          trim-kept b'{' b'}' (s ++ (b'}' ∷ [])) (b'{' ∷ s) refl (unfold is_space in refl)
              (unfold is_space in refl),
          e,
        )
        refl

  pub to_plaintext_json-elements :
      (fs : List ItemFields)
      → to_plaintext_json p fs ≡ ok (p.stringify_indented (export_json p (elements fs)))
  unfolding to_plaintext_json
  to_plaintext_json-elements fs = rw (item_elements-kept fs) refl

  -- An export of the items is imported.
  pub parse_vault_import-elements :
      (items : List ItemFields)
      → ((ms : Members) → Braced p ms)
      → parse_vault_import p (p.stringify_indented (export_json p (elements items)))
        ≡ or_no_items (keep_non_empty items)
  parse_vault_import-elements items braced =
      let (s, e) = braced (export_members p (elements items)) in
      let parses : p.parse_json (b'{' ∷ (s ++ (b'}' ∷ [])))
          ≡ some (export_json p (elements items)) =
        rw e at (
          p.parse-stringify_indented (export_json p (elements items))
            (export_json-IsStable items)) in
      rw e (parse_braced items s (parse_json-export items _ parses))

  -- A JSON export of the items can be written, and importing it gives the items back, each with all
  -- its fields, but for the items that carry nothing that an import looks for; without any other it
  -- is refused as a file without items. The JSON text of the export's object is enclosed in braces,
  -- and lower-casing keeps a text of lower-case letters and digits.
  pub parse_vault_import-to_plaintext_json :
      (items : List ItemFields)
      → ((ms : Members) → Braced p ms)
      → (text : Text) × (to_plaintext_json p items ≡ ok text)
        × (parse_vault_import p text ≡ or_no_items (keep_non_empty items))
  parse_vault_import-to_plaintext_json items braced = (
    p.stringify_indented (export_json p (elements items)),
    to_plaintext_json-elements items,
    parse_vault_import-elements items braced,
  )

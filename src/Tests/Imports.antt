-- ===== src/Tests/Imports.antt =====
-- Importing what was exported, and files of other managers.
use passwd.Base.{
  ℕ, ◌+◌, List, ◌≡◌, refl, ap, true, Option, none, some, [], ◌∷◌, ◌++◌, map, ◌==◌, if◌then◌else◌,
  Text, codes, arith,
}
use passwd.Base.Json.{Json, Members, object}
use passwd.Base.Outcome.{ok}
use passwd.Crypto.Platform.{Platform}
use passwd.ApiClient.Items.{ItemFields, login, note, blank_fields}
use passwd.ApiClient.Portable.{to_csv, newlines, replace_crlf}
use passwd.ApiClient.Portable.Import.{
  non_empty, keep_non_empty, or_no_items, parse_vault_import, to_plaintext_json,
}
use passwd.ApiClient.Portable.Columns.{is_plain}
use passwd.ApiClient.Portable.Import.Rows.{csv_view}
use passwd.ApiClient.Portable.Import.FromCsv.{parse_vault_import-to_csv}
use passwd.ApiClient.Portable.Import.FromJson.{Braced, parse_vault_import-to_plaintext_json}
use passwd.ApiClient.Items.{VaultItem}
use passwd.Base.Act.{Entropy}
use passwd.Tests.Toy.{toy, lower_ascii}
use passwd.Tests.Codec.{write, read, read-write}

abbrev counting : Entropy
counting = record { at = λ i. i + 3 }

abbrev bank : ItemFields
bank = record (blank_fields login) {
  name = codes "bank, \"main\"";
  notes = b'a' ∷ 13 ∷ 10 ∷ b'b' ∷ [];
  favorite = true;
}

abbrev only_folder : ItemFields
only_folder = record (blank_fields note) { folder = codes "work" }

lower_ascii-plain : (s : Text) → is_plain s ≡ true → lower_ascii s ≡ s
unfolding is_plain lower_ascii
lower_ascii-plain [] h = refl
lower_ascii-plain (c ∷ s) h = ground (arith, lower_ascii-plain s (ground arith))

parse_vault_import-to_csv_example :
    parse_vault_import toy (to_csv (bank ∷ only_folder ∷ []))
    ≡ or_no_items (keep_non_empty (map csv_view (bank ∷ only_folder ∷ [])))
parse_vault_import-to_csv_example =
    parse_vault_import-to_csv toy lower_ascii-plain (bank ∷ only_folder ∷ [])

-- The item that has only a folder is dropped.
kept_views :
    keep_non_empty (map csv_view (bank ∷ only_folder ∷ []))
    ≡ record (blank_fields login) {
      name = codes "bank, \"main\"";
      notes = b'a' ∷ 10 ∷ b'b' ∷ [];
      favorite = true;
    }
      ∷ []
unfolding keep_non_empty non_empty newlines replace_crlf
kept_views = refl

-- The platform of the tests, with an indented format that is enclosed in braces.
drop_last : Text → Text
drop_last [] = []
drop_last (c ∷ []) = []
drop_last (c ∷ d ∷ s) = c ∷ drop_last (d ∷ s)

drop_last-append : (s : Text) (d : ℕ) → drop_last (s ++ (d ∷ [])) ≡ s
unfolding drop_last
drop_last-append [] d = refl
drop_last-append (c ∷ []) d = refl
drop_last-append (c ∷ e ∷ s) d = ap (◌∷◌ c) (drop_last-append (e ∷ s) d)

inner : Text → Text
unfolding drop_last
inner [] = []
inner (c ∷ s) = if c == b'{' then drop_last s else []

or_inner : Text → Option Json → Option Json
unfolding inner
or_inner s (some v) = some v
or_inner s none = read (inner s)

unfoldable read_braced : Text → Option Json
unfolding or_inner
read_braced s = or_inner s (read s)

abbrev write_braced : Json → Text
write_braced v = b'{' ∷ (write v ++ (b'}' ∷ []))

read_braced-write : (v : Json) → read_braced (write v) ≡ some v
unfolding read_braced
read_braced-write v = rw (read-write v) refl

read_braced-write_braced : (v : Json) → read_braced (write_braced v) ≡ some v
unfolding read_braced or_inner inner read
read_braced-write_braced v = unfold drop_last in rw (drop_last-append (write v) b'}') (read-write v)

read_braced_number : (s : Text) → read_braced (b'1' ∷ s) ≡ none
unfolding read_braced or_inner inner read
read_braced_number s = refl

abbrev braced : Platform
braced = record toy {
  stringify_indented = write_braced;
  parse_json = read_braced;
  parse-stringify = λ v _. read_braced-write v;
  parse-stringify_indented = λ v _. read_braced-write_braced v;
  parse_json_number = λ a b. read_braced_number _;
}

write_braced-Braced : (ms : Members) → Braced braced ms
write_braced-Braced ms = (write (object ms), refl)

parse_vault_import-to_plaintext_json_example :
    (text : Text) × (to_plaintext_json braced (bank ∷ only_folder ∷ []) ≡ ok text)
    × (parse_vault_import braced text ≡ or_no_items (keep_non_empty (bank ∷ only_folder ∷ [])))
parse_vault_import-to_plaintext_json_example =
    parse_vault_import-to_plaintext_json braced lower_ascii-plain (bank ∷ only_folder ∷ [])
      write_braced-Braced

abbrev exported : List VaultItem
exported = record { id = codes "c1"; content = bank } ∷ []

abbrev passphrase : Text
passphrase = codes "pass word"

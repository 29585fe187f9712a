-- ===== src/Tests/Exports.antt =====
-- The CSV export.
use passwd.Base.{◌≡◌, refl, true, [], ◌∷◌, codes}
use passwd.ApiClient.Items.{ItemFields, login, blank_fields}
use passwd.ApiClient.Portable.{csv_rows, csv_escape, replace_crlf}

abbrev bank : ItemFields
bank = record (blank_fields login) {
  name = codes "bank, \"main\"";
  notes = b'a' ∷ 13 ∷ 10 ∷ b'b' ∷ [];
  favorite = true;
}

csv_escape-quotes : csv_escape (codes "a \"b\"") ≡ codes "\"a \"\"b\"\"\""
unfolding csv_escape
csv_escape-quotes = refl

csv_rows-lines :
    csv_rows (codes "a,b\n\n\"c\"\"\",d")
    ≡ (codes "a" ∷ codes "b" ∷ []) ∷ (codes "c\"" ∷ codes "d" ∷ []) ∷ []
unfolding csv_rows replace_crlf
csv_rows-lines = refl

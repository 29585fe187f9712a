-- ===== src/Tests/Shells.antt =====
-- An open vault file on a shell that keeps one file, and a password that grows.
use passwd.Base.{◌≡◌, refl, none, some, [], ◌∷◌, Text, codes, Option}
use passwd.Base.Outcome.{Result, ok, throw, error}
use passwd.Crypto.Password.{master_password_issue}
use passwd.Desktop.Files.{Entry, Shell, persist, open_existing_vault, encode_payload, entries_json}
use passwd.Desktop.Files.Reopening.{opened, open_existing_vault-persist}
use passwd.Tests.Accounts.{made, counting}
use passwd.Tests.Codec.{write}
use passwd.Tests.Sync.{all_narrow, all_narrow_sound}
use passwd.Tests.Toy.{toy, Narrow}

abbrev bank : Entry
bank = record {
  id = codes "1";
  name = codes "bank";
  username = codes "me";
  password = codes "pw";
  url = [];
  notes = [];
}

abbrev content : Option Text → Result Text
content none = throw (error (codes "no such file"))
content (some file) = ok file

abbrev one_file : Shell
one_file = record {
  Net = Option Text;
  read_vault = λ path net. (content net, net);
  write_vault = λ path file net. (ok tt, some file);
}

encodable_bank : Narrow (encode_payload toy (entries_json (bank ∷ [])))
unfolding encode_payload entries_json write all_narrow
encodable_bank = all_narrow_sound (encode_payload toy (entries_json (bank ∷ []))) refl

open_existing_vault-persist_example :
    ((persist toy one_file (opened (codes "v") made.0.state (bank ∷ [])) none counting).0 ≡ ok tt)
    × ((open_existing_vault toy one_file
          (codes "v")
          (codes "pw")
          (persist toy one_file (opened (codes "v") made.0.state (bank ∷ [])) none counting).1
          counting).0
        ≡ ok (opened (codes "v") made.0.state (bank ∷ [])))
open_existing_vault-persist_example =
    open_existing_vault-persist toy one_file (codes "v") made.0.state (bank ∷ []) (codes "pw") none
      some counting counting made.3 encodable_bank (λ file. refl) (λ file. refl)

master_password_issue-short :
    master_password_issue (codes "Abc1")
    ≡ some (codes "Use at least 12 characters (a short passphrase works well).")
unfolding master_password_issue
master_password_issue-short = refl

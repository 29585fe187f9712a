-- ===== src/Tests/Passwords.antt =====
-- Passwords that are used twice.
use passwd.Base.{◌≡◌, refl, List, [], ◌∷◌, ◌++◌, Text, Bytes, codes, take, drop}
use passwd.Base.Equality.{equal}
use passwd.ApiClient.Items.{VaultItem, login, blank_fields}
use passwd.Base.Outcome.{ok}
use passwd.Base.Strings.{is_space}
use passwd.ApiClient.Http.{Http}
use passwd.Web.Health.{reused_item_ids, by_password}
use passwd.Web.Health.Ranges.{check_vault, sha1_hex}
use passwd.Web.Health.Privacy.{prefixes, check_vault-prefixes}
use passwd.Tests.Toy.{toy, spread}

abbrev with_password : Text → Text → VaultItem
with_password id pw = record { id = id; content = record (blank_fields login) { password = pw } }

abbrev three : List VaultItem
three =
    with_password (codes "a") (codes "hunter2")
    ∷ with_password (codes "b") []
    ∷ with_password (codes "c") (codes "hunter2")
    ∷ []

reused_item_ids-three : reused_item_ids three ≡ codes "a" ∷ codes "c" ∷ []
unfolding reused_item_ids equal
reused_item_ids-three = refl

-- The first bytes of a text in place of its hash.
abbrev digest : Bytes → Bytes
digest s = take 20 (s ++ (0 ∷ 0 ∷ 0 ∷ 0 ∷ 0 ∷ 0 ∷ 0 ∷ 0 ∷ []))

-- A service that knows one password, and keeps the addresses that it was asked.
abbrev service : Http
service = record {
  Net = List Text;
  base_url = [];
  fetch = λ r net. (
    ok (record {
      status = 200;
      body = codes "0:3\n" ++ (drop 5 (sha1_hex toy digest (codes "hunter2")) ++ codes ":12\r\n");
    }),
    r.url ∷ net,
  );
  encode_component = λ s. s;
}

check_vault-three :
    (check_vault toy digest service three []).0 ≡ (codes "a", 12) ∷ (codes "c", 12) ∷ []
unfolding check_vault sha1_hex by_password equal spread is_space
check_vault-three = refl

abbrev other : List VaultItem
other = with_password (codes "d") (codes "hunger") ∷ []

same_prefixes : prefixes toy digest (by_password three) ≡ prefixes toy digest (by_password other)
unfolding by_password sha1_hex equal spread
same_prefixes = refl

check_vault-prefixes_example :
    (check_vault toy digest service three []).1 ≡ (check_vault toy digest service other []).1
check_vault-prefixes_example = check_vault-prefixes toy digest service three other [] same_prefixes

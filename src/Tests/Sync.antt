-- ===== src/Tests/Sync.antt =====
-- The vault on a server that keeps a list of ciphers.
use passwd.Base.{◌+◌, ◌≡◌, refl, true, Bool, ◌&&◌, ltb, [], ◌∷◌, ◌++◌, List, Text, codes, arith}
use passwd.Base.Act.{Entropy, draw_bytes}
use passwd.Base.Outcome.{ok, throw, error}
use passwd.Crypto.Primitives.Sealing.{draw-IsKey}
use passwd.ApiClient.Items.{Session, ItemFields, login, blank_fields}
use passwd.ApiClient.Fields.{fields_json, custom_fields_json, type_name}
use passwd.ApiClient.Sync.{Api, Cipher, load_ciphers, load_vault, add_item}
use passwd.ApiClient.Sync.Loading.{load_vault-add_item}
use passwd.Tests.Toy.{toy, lower_ascii, Narrow}
use passwd.Tests.Codec.{write}

abbrev pub counting : Entropy
counting = record { at = λ i. i + 3 }

abbrev pub alice : Session
alice = record {
  identifier = codes "alice";
  access_token = codes "t1";
  refresh_token = codes "t2";
  user_key = draw_bytes 64 0 counting;
  protected_private_key = [];
}

abbrev pub bank : ItemFields
bank = record (blank_fields login) {
  name = codes "bank";
  fields = record { label = codes "pin"; value = codes "1234"; hidden = true } ∷ [];
  favorite = true;
}

abbrev cipher : Text → Cipher
cipher t = record { id = codes "c1"; payload = t; created_at = []; updated_at = [] }

abbrev pub list_server : Api
list_server = record {
  Net = List Cipher;
  sync = λ token net. (ok net, net);
  create_cipher = λ token t net. (ok (cipher t), net ++ (cipher t ∷ []));
  update_cipher = λ token id t net. (throw (error (codes "offline")), net);
  delete_cipher = λ token id net. (throw (error (codes "offline")), net);
}

unfoldable pub all_narrow : Text → Bool
all_narrow [] = true
all_narrow (c ∷ s) = ltb c 65536 && all_narrow s

pub all_narrow_sound : (s : Text) → all_narrow s ≡ true → Narrow s
unfolding all_narrow
all_narrow_sound [] h = tt
all_narrow_sound (c ∷ s) h = (ground arith, all_narrow_sound s (ground arith))

pub encodable_bank : Narrow (write (fields_json bank))
unfolding write all_narrow custom_fields_json type_name
encodable_bank = all_narrow_sound (write (fields_json bank)) refl

pub lower_false : lower_ascii (codes "false") ≡ codes "false"
unfolding lower_ascii
lower_false = refl

load_vault-add_item_example :
    ((add_item toy list_server alice bank (cipher (codes "junk") ∷ []) counting).0
      ≡ ok (record { id = codes "c1"; content = bank }))
    × ((load_vault toy list_server alice
          (add_item toy list_server alice bank (cipher (codes "junk") ∷ []) counting).1
          counting).0
        ≡ ok (
            load_ciphers toy alice.user_key (cipher (codes "junk") ∷ [])
            ++ (record { id = codes "c1"; content = bank } ∷ [])))
load_vault-add_item_example =
    load_vault-add_item toy lower_false list_server alice bank (cipher (codes "junk") ∷ [])
      (codes "c1") [] [] (cipher (codes "junk") ∷ []) (λ t. cipher (codes "junk") ∷ cipher t ∷ [])
      counting counting (draw-IsKey 64 0 counting) encodable_bank (λ t. refl) (λ t. refl)

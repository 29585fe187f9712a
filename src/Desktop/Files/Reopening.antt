-- ===== src/Desktop/Files/Reopening.antt =====
-- Saving an open vault, and opening the file.
use passwd.Base.{◌≡◌, refl, List, [], ◌∷◌, Text}
use passwd.Base.Act.{Entropy}
use passwd.Base.Decimal.{decimal}
use passwd.Base.Equality.{equal}
use passwd.Base.Json.{IsStable, IsStableItems, Items, find_member, get}
use passwd.Base.Outcome.{ok}
use passwd.Crypto.Platform.{Platform}
use passwd.Crypto.Vault.{VaultState}
use passwd.Crypto.Vault.RoundTrip.{Protects, open-save_vault}
use passwd.Desktop.Files.{
  Entry, entries_json, payload_json, items_or_none, read_payload, encode_payload, decode_payload,
  Shell, DesktopVault, persist, open_existing_vault,
}

-- An open vault that holds these entries.
abbrev pub opened : Text → VaultState → List Entry → DesktopVault
opened path state es = record { path = path; state = state; items = entries_json es }

entries_json-IsStable : (es : List Entry) → IsStableItems (entries_json es)
unfolding entries_json find_member equal
entries_json-IsStable [] = tt
entries_json-IsStable (e ∷ es) = (
  (refl, tt, (refl, tt, (refl, tt, (refl, tt, (refl, tt, (refl, tt, tt)))))),
  entries_json-IsStable es,
)

payload_json-IsStable : (items : Items) → IsStableItems items → IsStable (payload_json items)
unfolding find_member equal decimal
payload_json-IsStable items h = (refl, (1, refl), (refl, h, tt))

module _ (p : Platform) where
  decode-encode_payload :
      (es : List Entry)
      → decode_payload p (encode_payload p (entries_json es)) ≡ ok (entries_json es)
  unfolding encode_payload decode_payload read_payload items_or_none get find_member equal
  decode-encode_payload es =
      rw
        (p.parse-stringify (payload_json (entries_json es))
          (payload_json-IsStable (entries_json es) (entries_json-IsStable es)))
        refl

  -- Where the shell keeps the file that it is given, saving an open vault succeeds from every state
  -- of the random source. Opening the file again with the password that protects the vault's state
  -- gives the same state and the same entries.
  pub open_existing_vault-persist :
      (shell : Shell) (path : Text) (state : VaultState) (es : List Entry) (password : Text)
      (net : shell.Net) (after : Text → shell.Net) (w v : Entropy)
      → Protects p password state
      → p.IsEncodable (encode_payload p (entries_json es))
      → ((file : Text) → shell.write_vault path file net ≡ (ok tt, after file))
      → ((file : Text) → shell.read_vault path (after file) ≡ (ok file, after file))
      → ((persist p shell (opened path state es) net w).0 ≡ ok tt)
        × ((open_existing_vault p shell path password
              (persist p shell (opened path state es) net w).1
              v).0
            ≡ ok (opened path state es))
  unfolding persist open_existing_vault
  open_existing_vault-persist shell path state es password net after w v protects encodable writes
        reads =
      let (file, saves, opens) =
        open-save_vault p state password (encode_payload p (entries_json es)) w protects
          encodable in
      rw (saves, writes file, reads file, opens, decode-encode_payload es) (refl, refl)

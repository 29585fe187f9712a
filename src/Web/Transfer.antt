-- ===== src/Web/Transfer.antt =====
-- clients/apps/web/src/ImportExport.tsx: the import and export panel. Its React state is `Panel`;
-- the date in a file's name is an argument.
pub mod Encrypted
use passwd.Base.{
  ℕ, ◌+◌, Bool, true, false, Option, none, some, List, [], ◌∷◌, ◌++◌, map, ◌==◌, leb, ltb,
  if◌then◌else◌, length, Text, codes,
}
use passwd.Base.Act.{Entropy}
use passwd.Base.Decimal.{decimal}
use passwd.Base.Outcome.{Result, ok, throw, message_of, ◌>>=◌}
use passwd.Crypto.Backup.{encrypt_backup, decrypt_backup, is_backup_envelope}
use passwd.Crypto.Platform.{Platform}
use passwd.Crypto.Primitives.{default_kdf}
use passwd.ApiClient.Items.{Session, ItemFields, VaultItem}
use passwd.ApiClient.Portable.{to_csv}
use passwd.ApiClient.Portable.Import.{to_plaintext_json, parse_vault_import}
use passwd.ApiClient.Sync.{Api, Import, import_items}

pub record Panel : Type 0 where
  pub export_pass : Text
  pub export_err : Option Text
  pub encrypted : Option Text
  pub import_pass : Text
  pub parsed : Option (List ItemFields)
  pub import_err : Option Text
  pub result : Option Text
  pub progress : Option (ℕ × ℕ)

-- The states that the hooks start with.
abbrev pub opened : Panel
opened = record {
  export_pass = [];
  export_err = none;
  encrypted = none;
  import_pass = [];
  parsed = none;
  import_err = none;
  result = none;
  progress = none;
}

-- The arguments of `download`.
pub record Download : Type 0 where
  pub filename : Text
  pub text : Text
  pub mime : Text

pub data Kind : Type 0 where
  json csv : Kind

unfoldable pub reset_import : Panel → Panel
reset_import s = record s {
  encrypted = none;
  import_pass = [];
  parsed = none;
  import_err = none;
  result = none;
  progress = none;
}

abbrev pub fields_of : List VaultItem → List ItemFields
fields_of items = map (λ i. i.content) items

abbrev plural : ℕ → Text
plural n = if n == 1 then [] else codes "s"

-- `Imported 3 items, 1 failed.`
unfoldable pub import_result : ℕ → ℕ → Text
import_result added failed =
    codes "Imported "
    ++ (decimal added
        ++ (codes " item"
            ++ (plural added
                ++ ((if failed == 0 then [] else codes ", " ++ (decimal failed ++ codes " failed"))
                    ++ codes "."))))

-- The end of `tryParse`.
unfoldable pub tried : Result (List ItemFields) → Panel → Panel
unfolding message_of
tried (ok items) s = record s { parsed = some items; import_err = none }
tried (throw e) s = record s { parsed = none; import_err = some (message_of e) }

module _ (p : Platform) where
  -- The export with an `id` in each item is the one without: the fields are normalized.
  unfoldable pub export_plain : Text → Kind → List VaultItem → Result Download
  unfolding to_plaintext_json to_csv
  export_plain today csv items = ok (record {
    filename = codes "passwd-export-" ++ (today ++ codes ".csv");
    text = to_csv (fields_of items);
    mime = codes "text/csv";
  })
  export_plain today json items = to_plaintext_json p (fields_of items) >>= λ text. ok (record {
    filename = codes "passwd-export-" ++ (today ++ codes ".json");
    text = text;
    mime = codes "application/json";
  })

  abbrev pub backup_download : Text → Text → Download
  backup_download today text = record {
    filename = codes "passwd-backup-" ++ (today ++ codes ".json");
    text = text;
    mime = codes "application/json";
  }

  -- What the click gives: an error that is thrown, nothing, or a download.
  abbrev pub downloaded : Text → Result Text → Result (Option Download)
  downloaded today (throw e) = throw e
  downloaded today (ok text) = ok (some (backup_download today text))

  abbrev cleared : Panel → Result Text → Panel
  cleared s (throw e) = s
  cleared s (ok text) = record s { export_pass = [] }

  abbrev encrypt_text : Text → Result Text → Entropy → Result Text × Entropy
  encrypt_text passphrase (throw e) w = (throw e, w)
  encrypt_text passphrase (ok text) w = encrypt_backup p text passphrase default_kdf w

  abbrev refused : Panel → Panel
  refused s = record s {
    export_err = some (codes "Use a backup passphrase of at least 8 characters.");
  }

  unfoldable pub export_encrypted :
      Text → List VaultItem → Panel → Entropy → Result (Option Download) × Panel × Entropy
  unfolding encrypt_backup to_plaintext_json
  export_encrypted today items s w =
      if ltb (length s.export_pass) 8
      then (ok none, refused s, w)
      else let (r, w') = encrypt_text s.export_pass (to_plaintext_json p (fields_of items)) w in
        (downloaded today r, cleared (record s { export_err = none }) r, w')

  unfoldable pub try_parse : Text → Panel → Panel
  unfolding tried parse_vault_import
  try_parse text s = tried (parse_vault_import p text) s

  -- The file that is picked, if one is.
  unfoldable pub on_file : Option Text → Panel → Panel
  unfolding try_parse reset_import is_backup_envelope
  on_file none s = reset_import s
  on_file (some text) s =
      let r = reset_import s in
      if is_backup_envelope p text then record r { encrypted = some text } else try_parse text r

  abbrev decrypted : Result Text → Panel → Panel
  decrypted (throw e) s = record s { import_err = some (message_of e) }
  decrypted (ok text) s = try_parse text s

  decrypt_text : Option Text → Panel → Panel
  unfolding try_parse decrypt_backup message_of
  decrypt_text none s = s
  decrypt_text (some []) s = s
  decrypt_text (some (c ∷ envelope)) s =
      decrypted (decrypt_backup p (c ∷ envelope) s.import_pass) (record s { import_err = none })

  unfoldable pub decrypt : Panel → Panel
  unfolding decrypt_text
  decrypt s = decrypt_text s.encrypted s

  module _ (api : Api) where
    open api use {Net}

    abbrev imported : Panel → Import × Net × Entropy → Panel × Net × Entropy
    imported s (r, net, w) = (
      record s { progress = none; parsed = none; result = some (import_result r.added r.failed) },
      net,
      w,
    )

    run_parsed : Session → Option (List ItemFields) → Panel → Net → Entropy → Panel × Net × Entropy
    unfolding import_items import_result
    run_parsed session none s net w = (s, net, w)
    run_parsed session (some items) s net w = imported s (import_items p api session items net w)

    -- The state after the import; the progress that is shown meanwhile is that of `import_items`.
    unfoldable pub run_import : Session → Panel → Net → Entropy → Panel × Net × Entropy
    unfolding run_parsed
    run_import session s net w = run_parsed session s.parsed s net w

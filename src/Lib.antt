-- ===== src/Lib.antt =====
-- passwd: the clients of an end-to-end encrypted password manager (clients/).
--
-- The crypto package (clients/packages/crypto/src) derives keys from a password, wraps the user key,
-- and encrypts items, vault files, backups and shares. The API client
-- (clients/packages/api-client/src) sends requests to the backend, holds a session, and exports and
-- imports items. The web application (clients/apps/web) signs in, shows and changes the vault, locks
-- it after a time without activity, and reports weak and reused passwords and failed sign-ins. The
-- browser extension (clients/apps/extension) keeps an unlocked session in a background worker, which
-- answers the messages of the popup and the content scripts. The desktop application
-- (clients/apps/desktop) opens and changes vault files and keeps a list of recent ones.
--
--   Base       texts, bytes, results, JSON values, the string methods, sorting, code that draws random
--              bytes
--   Crypto     Base64 and Primitives (primitives.ts, kdf.ts), EncString (encstring.ts), Identifier,
--              Generator and Wordlist (identifier.ts, wordlist.ts), Account (account.ts: Keys,
--              Items, Flows), Sharing (sharing.ts), Envelope (the parameters in files), Vault
--              (vault.ts), Backup (backup.ts), Totp (totp.ts), Password (password.ts), and Platform,
--              the interface to what they call
--   ApiClient  Http (api.ts: the request, Requests and Security for the endpoints, Typed for the
--              interfaces that session.ts takes), Items (the types of session.ts), Fields
--              (normalizeItemFields), Sync (the vault over the server's endpoints), Remote (code that
--              calls the server), Accounts (registration, login and recovery), Settings (passkeys
--              and the security settings), Shares (shared items), Portable (portable.ts: the CSV
--              format, Columns for the names of fields, and Import for the JSON format and the
--              import)
--   Extension  Protocol and Hosts (utils/protocol.ts, the popup's list), Background
--              (entrypoints/background.ts), Responses and Popup (entrypoints/popup/App.tsx, over the
--              messages to the worker), Content (entrypoints/content.ts)
--   Desktop    Files, Entries and Recents (apps/desktop/src/storage.ts, types.ts, VaultScreen.tsx)
--   Idle       the lock after a time without activity (App.tsx of both applications)
--   Web        Emails and SignIn (App.tsx), Vault, Listing and Awareness (VaultScreen.tsx), Transfer
--              (ImportExport.tsx), Health (health.ts), Biometric (biometric.ts), all of apps/web/src
--   Tests      runs on concrete inputs, and the theorems at concrete inputs
--
-- Names are those of the source in snake case (`deriveMasterKey` is `derive_master_key`); the member
-- `data` of an envelope is `ciphertext` or `payload` here. A JavaScript string is the list of its
-- UTF-16 code units, a byte array a list of numbers. Code that throws returns a `Result`. Code that
-- draws random bytes is an `Act` on a stream of numbers, and code that calls the server as well is a
-- `Remote`. A worker's handler is a function of the storage, the network and the two times at which
-- it reads the clock. The state of a screen's React hooks is a record, and a handler a function of
-- it; what is set in between and set back before the handler ends is left out.
--
-- Outside the model: WebCrypto, hash-wasm, the text encoder, Unicode normalisation and the JSON
-- text format are the fields of `Platform`, whose laws state what their documentation promises;
-- Tests.Toy is an instance in which all laws hold, and nothing is secret. `fetch` and
-- `encodeURIComponent` are the record `Http`, in which the text of an answer comes with it. The
-- operations of session.ts take the endpoints as the records `Api`, `Endpoints` and `ShareApi`,
-- which ApiClient/Http/Typed.antt fills with those of api.ts: an answer outside its declared type,
-- which the source goes on with, is an error there. The worker's calls of the API client are the
-- fields of `Client`, those of the sign-in form the fields of `Auth`, the WebAuthn ceremonies
-- `Ceremonies`, the biometric plugin `Plugin`, the file access of the desktop shell `Shell`, and SHA-1,
-- upper-casing and the reading of a URL are arguments, all with no law. A theorem that needs more
-- than `Platform` promises says so in its hypotheses: that the
-- empty text is no JSON, that the text of an object stands in braces, that lower-casing keeps
-- lower-case letters and digits. Secrecy against an attacker is not stated. The messages of
-- unsupported types and versions leave out the number that the source prints. The
-- numbers of a key derivation in a file or an answer are natural numbers in decimal digits; under
-- PBKDF2 the rounds may be a text or have a fraction, which is cut off, and the other two parameters
-- are not looked at and kept only as naturals. The source hands other spellings of a number on to the
-- platform, and they are refused here.
--
-- Not modelled: the server, the markup of the views, the clipboard, the events of a page, the dialogs of
-- the account panel, and the native shells.
--
-- Every loop is a structural recursion, except three: HKDF's recurs on the number of its blocks, the
-- printing of a number on fuel that the number itself bounds, and the generator of identifiers on
-- fuel for its draws, of which as many as the words are enough.
pub mod ApiClient
pub mod Base
pub mod Crypto
pub mod Desktop
pub mod Extension
pub mod Idle
pub mod Tests
pub mod Web

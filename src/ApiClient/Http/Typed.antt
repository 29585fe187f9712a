-- ===== src/ApiClient/Http/Typed.antt =====
-- The operations of session.ts take the endpoints at the types that api.ts declares. An answer
-- that is outside its type, which the source goes on with, is a `TypeError` here.
use passwd.Base.{Option, none, some, List, [], ◌∷◌, Text, codes}
use passwd.Base.Json.{Json, string, array, Items, end_items, item, get}
use passwd.Base.Outcome.{Result, ok, ◌>>=◌}
use passwd.Crypto.Envelope.{read_kdf}
use passwd.Crypto.Platform.{Platform}
use passwd.ApiClient.Accounts.{
  LoginResult, LoginOutcome, signed_in, second_factor, Challenge, Endpoints,
}
use passwd.ApiClient.Shares.{Share, ShareApi}
use passwd.ApiClient.Sync.{Api, Cipher}
use passwd.ApiClient.Http.{Http, type_error}
use passwd.ApiClient.Http.Requests
use passwd.ApiClient.Http.Requests.{LoginReply, accepted, methods_wanted}

unfoldable pub as_string : Option Json → Result Text
as_string (some (string t)) = ok t
as_string _ = type_error

unfoldable pub as_optional_string : Option Json → Result (Option Text)
as_optional_string none = ok none
as_optional_string (some (string t)) = ok (some t)
as_optional_string _ = type_error

unfoldable pub text_member : Text → Json → Result Text
unfolding as_string get
text_member k v = as_string (get k v)

-- The elements of an array, each read.
unfoldable pub read_each : {A : Type 0} → (Json → Result A) → Items → Result (List A)
read_each f end_items = ok []
read_each f (item v vs) = do a ← f v; rest ← read_each f vs; ok (a ∷ rest)

unfoldable pub read_array : {A : Type 0} → (Json → Result A) → Option Json → Result (List A)
unfolding read_each
read_array f (some (array vs)) = read_each f vs
read_array f _ = type_error

unfoldable pub as_text : Json → Result Text
as_text (string t) = ok t
as_text _ = type_error

unfoldable pub read_cipher : Json → Result Cipher
unfolding text_member
read_cipher v = do
  id ← text_member (codes "id") v
  payload ← text_member (codes "data") v
  created ← text_member (codes "createdAt") v
  updated ← text_member (codes "updatedAt") v
  ok (record { id = id; payload = payload; created_at = created; updated_at = updated })

unfoldable pub read_ciphers : Json → Result (List Cipher)
unfolding read_array read_cipher get
read_ciphers v = read_array read_cipher (get (codes "ciphers") v)

unfoldable pub read_share : Json → Result Share
unfolding text_member
read_share v = do
  id ← text_member (codes "id") v
  wrapped_key ← text_member (codes "wrappedKey") v
  payload ← text_member (codes "data") v
  ok (record { id = id; sealed = record { wrapped_key = wrapped_key; payload = payload } })

unfoldable pub read_shares : Json → Result (List Share)
unfolding read_array read_share get
read_shares v = read_array read_share (get (codes "shares") v)

unfoldable pub read_login_result : Json → Result LoginResult
unfolding text_member as_optional_string get
read_login_result v = do
  access_token ← text_member (codes "accessToken") v
  refresh_token ← text_member (codes "refreshToken") v
  protected_user_key ← text_member (codes "protectedUserKey") v
  protected_private_key ← as_optional_string (get (codes "protectedPrivateKey") v)
  ok (record {
    access_token = access_token;
    refresh_token = refresh_token;
    protected_user_key = protected_user_key;
    protected_private_key = protected_private_key;
  })

unfoldable pub read_challenge : Json → Result Challenge
unfolding text_member get
read_challenge v = do
  protected_user_key ← text_member (codes "recoveryProtectedUserKey") v
  kdf ← read_kdf (get (codes "kdf") v)
  ok (record { recovery_protected_user_key = protected_user_key; kdf = kdf })

unfoldable pub read_reply : LoginReply → Result LoginOutcome
unfolding read_login_result read_array as_text
read_reply (accepted v) = do r ← read_login_result v; ok (signed_in r)
read_reply (methods_wanted v) = do ms ← read_array as_text (some v); ok (second_factor ms)

-- What a call answers, read.
abbrev pub typed : {A B Net : Type 0} → (A → Result B) → Result A × Net → Result B × Net
typed f (r, net) = (r >>= f, net)

-- An answer that nothing reads.
abbrev pub ignored : Json → Result (Unit {0})
ignored v = ok tt

module _ (p : Platform) (http : Http) where
  open http use {Net}

  abbrev pub http_api : Api
  http_api = record {
    Net = Net;
    sync = λ token net. typed read_ciphers (Requests.sync p http token net);
    create_cipher =
        λ token payload net. typed read_cipher (Requests.create_cipher p http token payload net);
    update_cipher =
        λ token id payload net. typed ignored (Requests.update_cipher p http token id payload net);
    delete_cipher = λ token id net. typed ignored (Requests.delete_cipher p http token id net);
  }

  abbrev pub http_endpoints : Endpoints
  http_endpoints = record {
    Net = Net;
    prelogin = λ identifier net.
        typed (λ v. read_kdf (get (codes "kdf") v)) (Requests.prelogin p http identifier net);
    register = λ b net. typed ignored (Requests.register p http b net);
    login = λ identifier hash totp_code net.
        typed read_reply (Requests.login p http identifier hash totp_code net);
    recovery_challenge =
        λ identifier net. typed read_challenge (Requests.recovery_challenge p http identifier net);
    recovery_complete = λ identifier r net.
        typed read_login_result (Requests.recovery_complete p http identifier r net);
  }

  abbrev pub http_shares : ShareApi
  http_shares = record {
    Net = Net;
    lookup_public_key = λ token identifier net.
        typed (text_member (codes "publicKey"))
          (Requests.lookup_public_key p http token identifier net);
    create_share =
        λ token recipient e net. typed ignored (Requests.create_share p http token recipient e net);
    list_shares = λ token net. typed read_shares (Requests.list_shares p http token net);
  }

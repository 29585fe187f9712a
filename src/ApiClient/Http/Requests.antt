-- ===== src/ApiClient/Http/Requests.antt =====
-- clients/packages/api-client/src/api.ts: the endpoints. Each gives the value that the server
-- answered; `Typed` reads it at the type that the source declares.
use passwd.Base.{Option, none, some, [], ◌∷◌, ◌++◌, ◌==◌, ◌&&◌, if◌then◌else◌, ℕ, Text, codes}
use passwd.Base.Json.{
  Json, null, object, string, array, end_items, Members, end_members, member, get, truthy,
}
use passwd.Base.Outcome.{Result, ok, throw}
use passwd.Crypto.Envelope.{kdf_json}
use passwd.Crypto.Platform.{Platform}
use passwd.Crypto.Account.Flows.{RegistrationBundle, RecoveryReset}
use passwd.Crypto.Sharing.{ShareEnvelope}
use passwd.ApiClient.Http.{Http, HttpRequest, HttpResponse, call, refusal, is_success}

-- An object of one text.
abbrev pub one_member : Text → Text → Json
one_member k t = object (member k (string t) end_members)

abbrev optional_text : Text → Option Text → Members → Members
optional_text k none ms = ms
optional_text k (some t) ms = member k (string t) ms

abbrev pub no_members : Json
no_members = object end_members

-- The value of `login`, or the methods of the second factor that it asks for.
pub data LoginReply : Type 0 where
  accepted : Json → LoginReply
  methods_wanted : Json → LoginReply

-- `json.methods ?? []`
abbrev or_empty : Option Json → Json
or_empty none = array end_items
or_empty (some null) = array end_items
or_empty (some v) = v

-- `res.json().catch(() => ({}))`
abbrev or_no_members : Option Json → Json
or_no_members none = no_members
or_no_members (some v) = v

rejected : ℕ → Json → Result LoginReply
unfolding refusal truthy get
rejected status v =
    if (status == 401) && truthy (get (codes "twoFactorRequired") v)
    then ok (methods_wanted (or_empty (get (codes "methods") v)))
    else refusal (codes "login") status v

-- A null value has no members to read.
unfoldable pub read_login : ℕ → Json → Result LoginReply
unfolding rejected
read_login status v = if is_success status then ok (accepted v) else rejected status v

module _ (p : Platform) where
  unfoldable pub read_login_answer : Result HttpResponse → Result LoginReply
  unfolding read_login
  read_login_answer (throw e) = throw e
  read_login_answer (ok r) = read_login r.status (or_no_members (p.parse_json r.body))

  module _ (http : Http) where
    open http use {Net}

    abbrev pub login_request : Text → Text → Option Text → HttpRequest
    login_request identifier hash totp_code = record {
      method = codes "POST";
      url = http.base_url ++ codes "/api/auth/login";
      headers = (codes "content-type", codes "application/json") ∷ [];
      body = some (
          p.stringify (
            object (
              member (codes "identifier") (string identifier) (
                member (codes "masterPasswordHash") (string hash)
                  (optional_text (codes "totpCode") totp_code end_members)))));
    }

    unfoldable pub login : Text → Text → Option Text → Net → Result LoginReply × Net
    unfolding read_login_answer
    login identifier hash totp_code net =
        let (response, net') = http.fetch (login_request identifier hash totp_code) net in
        (read_login_answer response, net')

    unfoldable pub prelogin : Text → Net → Result Json × Net
    unfolding call
    prelogin identifier =
        call p http (codes "POST") (codes "/api/accounts/prelogin")
          (some (one_member (codes "identifier") identifier)) none

    unfoldable pub register : RegistrationBundle → Net → Result Json × Net
    unfolding call
    register b =
        call p http (codes "POST") (codes "/api/accounts/register")
          (some (
            object (
              member (codes "identifier") (string b.identifier) (
                member (codes "kdf") (kdf_json b.kdf) (
                  member (codes "masterPasswordHash") (string b.master_password_hash) (
                    member (codes "protectedUserKey") (string b.protected_user_key) (
                      member (codes "publicKey") (string b.public_key) (
                        member (codes "protectedPrivateKey") (string b.protected_private_key)
                          end_members))))))))
          none

    unfoldable pub recovery_challenge : Text → Net → Result Json × Net
    unfolding call
    recovery_challenge identifier =
        call p http (codes "POST") (codes "/api/auth/recovery/challenge")
          (some (one_member (codes "identifier") identifier)) none

    -- The members that `recoverAccount` sends.
    unfoldable pub recovery_complete : Text → RecoveryReset → Net → Result Json × Net
    unfolding call
    recovery_complete identifier r =
        call p http (codes "POST") (codes "/api/auth/recovery/complete")
          (some (
            object (
              member (codes "identifier") (string identifier) (
                member (codes "recoveryAuthHash") (string r.recovery_auth_hash) (
                  member (codes "masterPasswordHash") (string r.master_password_hash) (
                    member (codes "protectedUserKey") (string r.protected_user_key)
                      (member (codes "kdf") (kdf_json r.kdf) end_members)))))))
          none

    unfoldable pub sync : Text → Net → Result Json × Net
    unfolding call
    sync token = call p http (codes "GET") (codes "/api/sync") none (some token)

    unfoldable pub create_cipher : Text → Text → Net → Result Json × Net
    unfolding call
    create_cipher token payload =
        call p http (codes "POST") (codes "/api/ciphers") (some (one_member (codes "data") payload))
          (some token)

    unfoldable pub update_cipher : Text → Text → Text → Net → Result Json × Net
    unfolding call
    update_cipher token id payload =
        call p http (codes "PUT") (codes "/api/ciphers/" ++ id)
          (some (one_member (codes "data") payload)) (some token)

    unfoldable pub delete_cipher : Text → Text → Net → Result Json × Net
    unfolding call
    delete_cipher token id =
        call p http (codes "DELETE") (codes "/api/ciphers/" ++ id) none (some token)

    unfoldable pub lookup_public_key : Text → Text → Net → Result Json × Net
    unfolding call
    lookup_public_key token identifier =
        call p http (codes "GET")
          (codes "/api/users/public-key?identifier=" ++ http.encode_component identifier) none
          (some token)

    -- The members that `shareItem` sends.
    unfoldable pub create_share : Text → Text → ShareEnvelope → Net → Result Json × Net
    unfolding call
    create_share token recipient e =
        call p http (codes "POST") (codes "/api/shares")
          (some (
            object (
              member (codes "recipientIdentifier") (string recipient) (
                member (codes "wrappedKey") (string e.wrapped_key)
                  (member (codes "data") (string e.payload) end_members)))))
          (some token)

    unfoldable pub list_shares : Text → Net → Result Json × Net
    unfolding call
    list_shares token = call p http (codes "GET") (codes "/api/shares") none (some token)

    unfoldable pub delete_share : Text → Text → Net → Result Json × Net
    unfolding call
    delete_share token id =
        call p http (codes "DELETE") (codes "/api/shares/" ++ id) none (some token)

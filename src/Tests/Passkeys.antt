-- ===== src/Tests/Passkeys.antt =====
-- A passkey on a backend that accepts it.
use passwd.Base.{◌+◌, ◌≡◌, refl, none, some, [], if◌then◌else◌, codes}
use passwd.Base.Act.{Entropy}
use passwd.Base.Decimal.{decimal}
use passwd.Base.Equality.{equal}
use passwd.Base.Json.{Json, object, string, member, end_members, get, find_member}
use passwd.Base.Outcome.{Result, ok, throw, error}
use passwd.Crypto.Envelope.Kdf.{read_kdf-kdf_json}
use passwd.Crypto.Platform.{Derived}
use passwd.Crypto.Primitives.{default_kdf, derive_key}
use passwd.Crypto.Account.Keys.{derive_master_key}
use passwd.Crypto.Account.Flows.Unlocking.{derive_master_password_hash-Hashes}
use passwd.ApiClient.Accounts.{LoginResult, signed_in, Endpoints, login_account}
use passwd.ApiClient.Http.{Http, HttpRequest, HttpResponse, call, read_answer, read_text}
use passwd.ApiClient.Http.Requests
use passwd.ApiClient.Http.Requests.{accepted, one_member, read_login, read_login_answer}
use passwd.Crypto.Envelope.{kdf_json}
use passwd.ApiClient.Http.Security.{webauthn_login_begin, webauthn_login_finish}
use passwd.ApiClient.Http.Typed.{text_member, as_string, as_optional_string, read_login_result}
use passwd.ApiClient.Settings.{Ceremonies, public_key_of, answer_member, login_with_passkey}
use passwd.ApiClient.Settings.Passkeys.{retoken, login_with_passkey-login_account}
use passwd.Tests.Toy.{toy, stretch-Derived}
use passwd.Tests.Codec.{write, read}

abbrev counting : Entropy
counting = record { at = λ i. i + 3 }

abbrev begun : Json
begun = object (
    member (codes "sessionId") (string (codes "w1"))
      (member (codes "options") (one_member (codes "publicKey") (codes "challenge")) end_members))

abbrev answer : Json
answer = object (
    member (codes "accessToken") (string (codes "t1")) (
      member (codes "refreshToken") (string (codes "t2"))
        (member (codes "protectedUserKey") (string (codes "1.AQID|/wA=")) end_members)))

abbrev kdf_answer : Json
kdf_answer = object (member (codes "kdf") (kdf_json default_kdf) end_members)

abbrev json : Json → Result HttpResponse
json v = ok (record { status = 200; body = write v })

unfoldable serve : HttpRequest → Unit {0} → Result HttpResponse × Unit {0}
unfolding equal
serve r net =
    if equal r.url (codes "/api/accounts/prelogin")
    then (json (kdf_answer), net)
    else if equal r.url (codes "/api/auth/webauthn/begin")
    then (json begun, net)
    else (json answer, net)

abbrev backend : Http
backend = record { Net = Unit; base_url = []; fetch = serve; encode_component = λ t. t }

abbrev browser : Ceremonies toy backend
browser = record {
  authenticate = λ options net. (ok (string (codes "assertion")), net);
  enroll = λ options net. (throw (error (codes "no authenticator")), net);
}

alice_derives : Derived 32 (derive_master_key toy (codes "pw") (codes "alice") default_kdf)
unfolding derive_master_key derive_key
alice_derives = stretch-Derived 32 _

-- The two answers: they differ in the tokens.
abbrev fresh : LoginResult
fresh = record {
  access_token = codes "t1";
  refresh_token = codes "t2";
  protected_user_key = codes "1.AQID|/wA=";
  protected_private_key = none;
}

abbrev old : LoginResult
old = record fresh { access_token = codes "s1"; refresh_token = codes "s2" }

abbrev offline : {A : Type 0} → Result A
offline = throw (error (codes "offline"))

-- The account before a passkey was enrolled.
abbrev before_passkey : Endpoints
before_passkey = record {
  Net = Unit;
  prelogin = λ identifier net. (ok default_kdf, net);
  register = λ b net. (offline, net);
  login = λ identifier hash totp_code net. (ok (signed_in old), net);
  recovery_challenge = λ identifier net. (offline, net);
  recovery_complete = λ identifier r net. (offline, net);
}

login_with_passkey-login_account_example :
    (login_with_passkey toy backend browser (codes "alice") (codes "pw") tt counting).0
    ≡ retoken fresh
        (login_account toy before_passkey (codes "alice") (codes "pw") none tt counting).0
unfolding Requests.prelogin webauthn_login_begin webauthn_login_finish call read_answer read_text
    serve equal text_member as_string get as_optional_string read_login_result find_member
    public_key_of answer_member write read decimal
login_with_passkey-login_account_example =
    login_with_passkey-login_account toy backend browser before_passkey (codes "alice") (codes "pw")
      default_kdf alice_derives.key
      (derive_master_password_hash-Hashes toy alice_derives.key (codes "pw")).hash (codes "w1")
      (some (string (codes "challenge"))) kdf_answer begun (string (codes "assertion")) answer fresh
      old tt tt tt tt tt tt tt tt counting refl (read_kdf-kdf_json default_kdf)
      alice_derives.derives
      (derive_master_password_hash-Hashes toy alice_derives.key (codes "pw")).hashes refl refl refl
      refl refl refl refl refl (refl, refl)

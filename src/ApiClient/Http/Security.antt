-- ===== src/ApiClient/Http/Security.antt =====
-- clients/packages/api-client/src/api.ts: the endpoints of the account's security settings. A
-- credential is the JSON that the browser's WebAuthn ceremony gives.
use passwd.Base.{none, some, ◌++◌, Text, codes}
use passwd.Base.Json.{Json, object, string, end_members, member}
use passwd.Base.Outcome.{Result}
use passwd.Crypto.Platform.{Platform}
use passwd.ApiClient.Http.{Http, call}
use passwd.ApiClient.Http.Requests.{one_member, no_members}

module _ (p : Platform) (http : Http) where
  open http use {Net}

  unfoldable pub delete_account_req : Text → Net → Result Json × Net
  unfolding call
  delete_account_req token = call p http (codes "DELETE") (codes "/api/account") none (some token)

  unfoldable pub list_sessions : Text → Net → Result Json × Net
  unfolding call
  list_sessions token = call p http (codes "GET") (codes "/api/sessions") none (some token)

  unfoldable pub logout_all : Text → Net → Result Json × Net
  unfolding call
  logout_all token = call p http (codes "POST") (codes "/api/auth/logout-all") none (some token)

  unfoldable pub two_factor_status : Text → Net → Result Json × Net
  unfolding call
  two_factor_status token = call p http (codes "GET") (codes "/api/2fa") none (some token)

  unfoldable pub two_factor_setup : Text → Net → Result Json × Net
  unfolding call
  two_factor_setup token =
      call p http (codes "POST") (codes "/api/2fa/setup") (some no_members) (some token)

  unfoldable pub two_factor_enable : Text → Text → Net → Result Json × Net
  unfolding call
  two_factor_enable token code =
      call p http (codes "POST") (codes "/api/2fa/enable") (some (one_member (codes "code") code))
        (some token)

  unfoldable pub two_factor_disable : Text → Text → Net → Result Json × Net
  unfolding call
  two_factor_disable token code =
      call p http (codes "POST") (codes "/api/2fa/disable") (some (one_member (codes "code") code))
        (some token)

  unfoldable pub recovery_status : Text → Net → Result Json × Net
  unfolding call
  recovery_status token = call p http (codes "GET") (codes "/api/recovery") none (some token)

  unfoldable pub recovery_enable : Text → Text → Text → Net → Result Json × Net
  unfolding call
  recovery_enable token protected_user_key auth_hash =
      call p http (codes "POST") (codes "/api/recovery/enable")
        (some (
          object (
            member (codes "recoveryProtectedUserKey") (string protected_user_key)
              (member (codes "recoveryAuthHash") (string auth_hash) end_members))))
        (some token)

  unfoldable pub recovery_disable : Text → Net → Result Json × Net
  unfolding call
  recovery_disable token =
      call p http (codes "POST") (codes "/api/recovery/disable") none (some token)

  unfoldable pub webauthn_credentials : Text → Net → Result Json × Net
  unfolding call
  webauthn_credentials token =
      call p http (codes "GET") (codes "/api/2fa/webauthn/credentials") none (some token)

  unfoldable pub webauthn_delete_credential : Text → Text → Net → Result Json × Net
  unfolding call
  webauthn_delete_credential token id =
      call p http (codes "DELETE") (codes "/api/2fa/webauthn/credentials/" ++ id) none (some token)

  unfoldable pub webauthn_register_begin : Text → Net → Result Json × Net
  unfolding call
  webauthn_register_begin token =
      call p http (codes "POST") (codes "/api/2fa/webauthn/register/begin") (some no_members)
        (some token)

  unfoldable pub webauthn_register_finish : Text → Text → Text → Json → Net → Result Json × Net
  unfolding call
  webauthn_register_finish token session_id name credential =
      call p http (codes "POST") (codes "/api/2fa/webauthn/register/finish")
        (some (
          object (
            member (codes "sessionId") (string session_id) (
              member (codes "name") (string name)
                (member (codes "credential") credential end_members)))))
        (some token)

  unfoldable pub webauthn_login_begin : Text → Text → Net → Result Json × Net
  unfolding call
  webauthn_login_begin identifier hash =
      call p http (codes "POST") (codes "/api/auth/webauthn/begin")
        (some (
          object (
            member (codes "identifier") (string identifier)
              (member (codes "masterPasswordHash") (string hash) end_members))))
        none

  unfoldable pub webauthn_login_finish : Text → Text → Text → Json → Net → Result Json × Net
  unfolding call
  webauthn_login_finish identifier hash session_id credential =
      call p http (codes "POST") (codes "/api/auth/webauthn/finish")
        (some (
          object (
            member (codes "identifier") (string identifier) (
              member (codes "masterPasswordHash") (string hash) (
                member (codes "sessionId") (string session_id)
                  (member (codes "credential") credential end_members))))))
        none

  unfoldable pub audit_log : Text → Net → Result Json × Net
  unfolding call
  audit_log token = call p http (codes "GET") (codes "/api/audit") none (some token)

-- ===== src/ApiClient/Settings.antt =====
-- clients/packages/api-client/src/session.ts: signing in with a passkey, and the security settings of
-- an account. The browser's WebAuthn ceremonies are the record `Ceremonies`; the form encoding of
-- `URLSearchParams` is a parameter. A value that the server answers is passed on as it is.
pub mod Passkeys
use passwd.Base.{
  ℕ, zero, suc, ◌+◌, ◌%◌, ◌^◌, Option, none, some, [], ◌∷◌, ◌++◌, Text, codes, get_or, length,
}
use passwd.Base.Act.{Act, Entropy, later}
use passwd.Base.Json.{Json, null, get}
use passwd.Base.Outcome
use passwd.Base.Outcome.{Result, ok, throw}
use passwd.Crypto.Account.Flows.{enroll_recovery_with}
use passwd.Crypto.Account.Keys.{
  derive_master_key, derive_master_password_hash, stretch_master_key, unwrap_user_key,
}
use passwd.Crypto.Envelope.{read_kdf}
use passwd.Crypto.Platform.{Platform}
use passwd.ApiClient.Accounts.{LoginResult, session_of, or_blank, signed, signed_in}
use passwd.ApiClient.Http.{Http, type_error}
use passwd.ApiClient.Http.Requests
use passwd.ApiClient.Http.Security.{
  two_factor_status, two_factor_setup, two_factor_enable, two_factor_disable, recovery_status,
  recovery_enable, recovery_disable, audit_log, list_sessions, logout_all, delete_account_req,
  webauthn_credentials, webauthn_delete_credential, webauthn_register_begin,
  webauthn_register_finish, webauthn_login_begin, webauthn_login_finish,
}
use passwd.ApiClient.Http.Typed.{http_endpoints, text_member, read_login_result}
use passwd.ApiClient.Items.{Session}
use passwd.ApiClient.Remote.{Remote, done, local, remote, ◌>>=◌}

-- The alphabet of `generatePassword`.
abbrev pub alphabet : Text
alphabet = codes "ABCDEFGHIJKLMNOPQRSTUVWXYZabcdefghijklmnopqrstuvwxyz0123456789!@#$%^&*()-_=+"

-- The characters from the draw at `i` on.
unfoldable pub draw_chars : ℕ → ℕ → Entropy → Text
draw_chars zero i w = []
draw_chars (suc n) i w =
    get_or alphabet (w.at i % 2 ^ 32 % length alphabet) 0 ∷ draw_chars n (i + 1) w

unfoldable pub generate_password : ℕ → Act Text
unfolding draw_chars
generate_password size w = (ok (draw_chars size 0 w), later size w)

-- A member of an answer, read as the source does: none of a null value.
unfoldable pub answer_member : Text → Json → Result (Option Json)
unfolding get
answer_member k null = type_error
answer_member k v = ok (get k v)

-- `options.publicKey`
unfoldable pub public_key_of : Json → Result (Option Json)
unfolding answer_member
public_key_of v =
    Outcome.◌>>=◌ (answer_member (codes "options") v)
      λ options. elim options [ none ↦ type_error | some o ↦ answer_member (codes "publicKey") o ]

module _ (p : Platform) (http : Http) where
  open http use {Net}

  -- `startAuthentication` and `startRegistration`
  pub record Ceremonies : Type 0 where
    pub authenticate : Option Json → Net → Result Json × Net
    pub enroll : Option Json → Net → Result Json × Net

  abbrev pub shared_member : Text → Result Json → Result (Option Json)
  shared_member k (throw e) = throw e
  shared_member k (ok v) = answer_member k v

  unfoldable pub login_with_passkey : Ceremonies → Text → Text → Remote Net Session
  unfolding public_key_of
  login_with_passkey browser identifier master_password = do
    kdf ← remote ((http_endpoints p http).prelogin identifier)
    master_key ← local (λ w. (derive_master_key p master_password identifier kdf, w))
    hash ← local (λ w. (derive_master_password_hash p master_key master_password, w))
    begun ← remote (webauthn_login_begin p http identifier hash)
    session_id ← local (λ w. (text_member (codes "sessionId") begun, w))
    options ← local (λ w. (public_key_of begun, w))
    assertion ← remote (browser.authenticate options)
    answer ← remote (webauthn_login_finish p http identifier hash session_id assertion)
    res ← local (λ w. (read_login_result answer, w))
    stretched ← local (λ w. (stretch_master_key p master_key, w))
    user_key ← local (λ w. (unwrap_user_key p stretched res.protected_user_key, w))
    done (session_of identifier res user_key (or_blank res.protected_private_key))

  abbrev pub get_two_factor_status : Session → Net → Result Json × Net
  get_two_factor_status s = two_factor_status p http s.access_token

  unfoldable pub build_otpauth_uri : (Text → Text) → Text → Text → Text
  build_otpauth_uri form_encode identifier secret =
      codes "otpauth://totp/"
      ++ (http.encode_component (codes "passwd:" ++ identifier)
          ++ (codes "?secret="
              ++ (form_encode secret ++ codes "&issuer=passwd&algorithm=SHA1&digits=6&period=30")))

  unfoldable pub setup_two_factor : (Text → Text) → Session → Remote Net (Text × Text)
  unfolding build_otpauth_uri
  setup_two_factor form_encode s = do
    answer ← remote (two_factor_setup p http s.access_token)
    secret ← local (λ w. (text_member (codes "secret") answer, w))
    done (secret, build_otpauth_uri form_encode s.identifier secret)

  abbrev pub enable_two_factor : Session → Text → Net → Result Json × Net
  enable_two_factor s code = two_factor_enable p http s.access_token code

  abbrev pub disable_two_factor : Session → Text → Net → Result Json × Net
  disable_two_factor s code = two_factor_disable p http s.access_token code

  abbrev pub get_recovery_status : Session → Net → Result Json × Net
  get_recovery_status s = recovery_status p http s.access_token

  -- With the recovery code that `enrollRecovery` generates.
  unfoldable pub enable_recovery : Text → Session → Remote Net Text
  enable_recovery recovery_code s = do
    e ← local (enroll_recovery_with p recovery_code s.user_key)
    _ ←
        remote
          (recovery_enable p http s.access_token e.recovery_protected_user_key e.recovery_auth_hash)
    done e.recovery_code

  abbrev pub disable_recovery : Session → Net → Result Json × Net
  disable_recovery s = recovery_disable p http s.access_token

  unfoldable pub get_activity : Session → Net → Result (Option Json) × Net
  unfolding answer_member
  get_activity s net =
      let (r, net') = audit_log p http s.access_token net in
      (shared_member (codes "events") r, net')

  unfoldable pub get_sessions : Session → Net → Result (Option Json) × Net
  unfolding answer_member
  get_sessions s net =
      let (r, net') = list_sessions p http s.access_token net in
      (shared_member (codes "sessions") r, net')

  abbrev pub sign_out_everywhere : Session → Net → Result Json × Net
  sign_out_everywhere s = logout_all p http s.access_token

  abbrev pub delete_account : Session → Net → Result Json × Net
  delete_account s = delete_account_req p http s.access_token

  abbrev pub remove_shared_item : Session → Text → Net → Result Json × Net
  remove_shared_item s share_id = Requests.delete_share p http s.access_token share_id

  unfoldable pub list_passkeys : Session → Net → Result (Option Json) × Net
  unfolding answer_member
  list_passkeys s net =
      let (r, net') = webauthn_credentials p http s.access_token net in
      (shared_member (codes "credentials") r, net')

  abbrev pub remove_passkey : Session → Text → Net → Result Json × Net
  remove_passkey s id = webauthn_delete_credential p http s.access_token id

  unfoldable pub enroll_passkey : Ceremonies → Session → Text → Remote Net Json
  unfolding public_key_of
  enroll_passkey browser s name = do
    begun ← remote (webauthn_register_begin p http s.access_token)
    session_id ← local (λ w. (text_member (codes "sessionId") begun, w))
    options ← local (λ w. (public_key_of begun, w))
    attestation ← remote (browser.enroll options)
    remote (webauthn_register_finish p http s.access_token session_id name attestation)

-- ===== src/ApiClient/Accounts.antt =====
-- clients/packages/api-client/src/session.ts: registration, login and recovery against the server.
-- The endpoints of api.ts are the parameter `Endpoints`.
pub mod SignIn
use passwd.Base.{Option, none, some, List, [], ◌∷◌, Text, Bytes, codes}
use passwd.Base.Outcome.{Result, ok, throw, error, two_factor}
use passwd.Crypto.Platform.{Platform}
use passwd.Crypto.Primitives.{KdfParams, default_kdf}
use passwd.Crypto.Account.Keys.{
  derive_master_key, derive_master_password_hash, stretch_master_key, unwrap_user_key,
}
use passwd.Crypto.Account.Flows.{
  RegistrationBundle, Registration, RecoveryReset, build_registration, complete_recovery,
}
use passwd.ApiClient.Items.{Session}
use passwd.ApiClient.Remote.{Remote, done, local, remote, ◌>>=◌}

-- `LoginResult`, less its `kdf`, which these operations do not read.
pub record LoginResult : Type 0 where
  pub access_token : Text
  pub refresh_token : Text
  pub protected_user_key : Text
  pub protected_private_key : Option Text

-- `LoginOutcome`
pub data LoginOutcome : Type 0 where
  signed_in : LoginResult → LoginOutcome
  second_factor : List Text → LoginOutcome

-- The answer to a recovery challenge.
pub record Challenge : Type 0 where
  pub recovery_protected_user_key : Text
  pub kdf : KdfParams

pub record Endpoints : Type 1 where
  pub Net : Type 0
  pub prelogin : Text → Net → Result KdfParams × Net
  pub register : RegistrationBundle → Net → Result (Unit {0}) × Net
  pub login : Text → Text → Option Text → Net → Result LoginOutcome × Net
  pub recovery_challenge : Text → Net → Result Challenge × Net
  pub recovery_complete : Text → RecoveryReset → Net → Result LoginResult × Net

-- `res.protectedPrivateKey ?? ""`
unfoldable pub or_blank : Option Text → Text
or_blank none = []
or_blank (some t) = t

unfoldable pub session_of : Text → LoginResult → Bytes → Text → Session
session_of identifier res user_key protected_private_key = record {
  identifier = identifier;
  access_token = res.access_token;
  refresh_token = res.refresh_token;
  user_key = user_key;
  protected_private_key = protected_private_key;
}

module _ (p : Platform) (api : Endpoints) where
  open api use {Net}

  -- After the login of a new account.
  registered : Registration → LoginOutcome → Remote Net Session
  unfolding session_of
  registered r (second_factor methods) net w =
      (throw (error (codes "unexpected two-factor challenge on a new account")), net, w)
  registered r (signed_in res) net w =
      (ok (session_of r.bundle.identifier res r.user_key r.bundle.protected_private_key), net, w)

  unfoldable pub register_account : Text → Text → Remote Net Session
  unfolding registered
  register_account identifier master_password = do
    r ← local (build_registration p identifier master_password default_kdf)
    _ ← remote (api.register r.bundle)
    res ← remote (api.login r.bundle.identifier r.bundle.master_password_hash none)
    registered r res

  -- After the server's answer to a login: the user key is unwrapped with the master key.
  unfoldable pub signed : Text → Bytes → LoginOutcome → Remote Net Session
  unfolding session_of or_blank
  signed identifier master_key (second_factor methods) =
      local (λ w. (throw (two_factor methods), w))
  signed identifier master_key (signed_in res) = do
    stretched ← local (λ w. (stretch_master_key p master_key, w))
    user_key ← local (λ w. (unwrap_user_key p stretched res.protected_user_key, w))
    done (session_of identifier res user_key (or_blank res.protected_private_key))

  unfoldable pub login_account : Text → Text → Option Text → Remote Net Session
  unfolding signed
  login_account identifier master_password totp_code = do
    kdf ← remote (api.prelogin identifier)
    master_key ← local (λ w. (derive_master_key p master_password identifier kdf, w))
    hash ← local (λ w. (derive_master_password_hash p master_key master_password, w))
    res ← remote (api.login identifier hash totp_code)
    signed identifier master_key res

  unfoldable pub recover_account : Text → Text → Text → Remote Net Session
  unfolding session_of or_blank
  recover_account identifier recovery_code new_master_password = do
    c ← remote (api.recovery_challenge identifier)
    reset ← local (
        complete_recovery p recovery_code c.recovery_protected_user_key identifier
          new_master_password c.kdf)
    res ← remote (api.recovery_complete identifier reset)
    done (session_of identifier res reset.user_key (or_blank res.protected_private_key))

-- ===== src/Tests/Server.antt =====
-- Registering and signing in on a server that keeps one account and compares the hashes.
use passwd.Base.{◌+◌, ◌≡◌, refl, Option, none, some, Text, codes, if◌then◌else◌}
use passwd.Base.Act.{Entropy}
use passwd.Base.Equality.{equal, equal_refl}
use passwd.Base.Outcome.{Result, ok, throw, error}
use passwd.Crypto.Identifier.{normalize_identifier}
use passwd.Crypto.Platform.{IsKey, Derived}
use passwd.Crypto.Primitives.{KdfParams, default_kdf, derive_key}
use passwd.Crypto.Account.Keys.{derive_master_key}
use passwd.Crypto.Account.Flows.{RegistrationBundle}
use passwd.ApiClient.Items.{Session}
use passwd.ApiClient.Accounts.{Endpoints, LoginOutcome, signed_in, register_account, login_account}
use passwd.ApiClient.Accounts.SignIn.{keys_of, Serves, login_account-register_account}
use passwd.Tests.Toy.{toy, lower_ascii, stretch-Derived}

abbrev counting : Entropy
counting = record { at = λ i. i + i + 5 }

abbrev refused : {A : Type 0} → Result A
refused = throw (error (codes "invalid credentials"))

abbrev parameters : Option RegistrationBundle → Result KdfParams
parameters none = refused
parameters (some b) = ok b.kdf

unfoldable check_hash : Text → Option RegistrationBundle → Result LoginOutcome
check_hash hash none = refused
check_hash hash (some b) =
    if equal hash b.master_password_hash
    then ok (signed_in (keys_of (codes "t1") (codes "t2") b))
    else refused

abbrev one_account : Endpoints
one_account = record {
  Net = Option RegistrationBundle;
  prelogin = λ identifier net. (parameters net, net);
  register = λ b net. (ok tt, some b);
  login = λ identifier hash totp_code net. (check_hash hash net, net);
  recovery_challenge = λ identifier net. (refused, net);
  recovery_complete = λ identifier reset net. (refused, net);
}

one_account-Serves : (typed : Text) → Serves one_account typed none some
unfolding check_hash
one_account-Serves typed = record {
  access_token = codes "t1";
  refresh_token = codes "t2";
  registers = λ b. refl;
  knows = λ b. refl;
  accepts = λ b. rw (equal_refl b.master_password_hash) refl;
  accepts_typed = λ b. rw (equal_refl b.master_password_hash) refl;
}

zoo_derives : Derived 32 (derive_master_key toy (codes "pw") (codes "zoo zone") default_kdf)
unfolding derive_master_key derive_key
zoo_derives = stretch-Derived 32 _

login_account-register_account_example :
    (s t : Session) × ((register_account toy one_account
        (codes "zoo zone")
        (codes "pw")
        none
        counting).0
      ≡ ok s)
    × ((login_account toy one_account
          (codes " ZOO zone")
          (codes "pw")
          none
          (register_account toy one_account (codes "zoo zone") (codes "pw") none counting).1
          counting).0
        ≡ ok t)
    × IsKey 64 s.user_key
    × (t.user_key ≡ s.user_key)
    × (t.protected_private_key ≡ s.protected_private_key)
unfolding normalize_identifier lower_ascii
login_account-register_account_example =
    login_account-register_account toy one_account (codes "zoo zone") (codes " ZOO zone")
      (codes "pw") none some counting counting refl zoo_derives
      (one_account-Serves (codes " ZOO zone"))

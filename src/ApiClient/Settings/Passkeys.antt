-- ===== src/ApiClient/Settings/Passkeys.antt =====
-- Signing in with a passkey, and with a password.
use passwd.Base.{◌≡◌, refl, none, Option, Text, Bytes, codes}
use passwd.Base.Act.{Entropy}
use passwd.Base.Json.{Json, get}
use passwd.Crypto.Envelope.{read_kdf}
use passwd.Base.Outcome.{Result, ok, throw}
use passwd.ApiClient.Remote.{Remote, done, local, ◌>>=◌}
use passwd.Crypto.Platform.{Platform}
use passwd.Crypto.Primitives.{KdfParams}
use passwd.Crypto.Account.Keys.{
  derive_master_key, derive_master_password_hash, stretch_master_key, unwrap_user_key,
}
use passwd.ApiClient.Items.{Session}
use passwd.ApiClient.Accounts.{
  LoginResult, Endpoints, login_account, signed, signed_in, session_of, or_blank,
}
use passwd.ApiClient.Http.{Http}
use passwd.ApiClient.Http.Requests
use passwd.ApiClient.Http.Requests.{accepted}
use passwd.ApiClient.Http.Security.{webauthn_login_begin, webauthn_login_finish}
use passwd.ApiClient.Http.Typed.{text_member, read_login_result}
use passwd.ApiClient.Settings.{Ceremonies, public_key_of, login_with_passkey}

-- What follows a login draws no randomness and asks no server.
module _ {Net : Type 0} where
  abbrev closing : {A B : Type 0} → Result A → (A → B) → Remote Net B
  closing r f = do a ← local (λ v. (r, v)); done (f a)

  abbrev opening : {A B C : Type 0} → Result A → (A → Result B) → (B → C) → Remote Net C
  opening r g f = do a ← local (λ v. (r, v)); closing (g a) f

-- A session with the tokens of a login result.
abbrev pub retoken : LoginResult → Result Session → Result Session
retoken res (throw e) = throw e
retoken res (ok s) =
    ok (record s { access_token = res.access_token; refresh_token = res.refresh_token })

-- The keys of an account, which every login to it answers.
abbrev pub SameKeys : LoginResult → LoginResult → Type 0
SameKeys res other =
    (res.protected_user_key ≡ other.protected_user_key)
    × (res.protected_private_key ≡ other.protected_private_key)

module _ {M N : Type 0} (m : M) (n : N) (w : Entropy) (res : LoginResult) where
  closing-retoken :
      {A : Type 0} (r : Result A) (f g : A → Session)
      → ((a : A) → ok (f a) ≡ retoken res (ok (g a)))
      → (closing r f m w).0 ≡ retoken res (closing r g n w).0
  closing-retoken (throw e) f g h = refl
  closing-retoken (ok a) f g h = h a

  opening-retoken :
      {A B : Type 0} (r : Result A) (k : A → Result B) (f g : B → Session)
      → ((b : B) → ok (f b) ≡ retoken res (ok (g b)))
      → (opening r k f m w).0 ≡ retoken res (opening r k g n w).0
  opening-retoken (throw e) k f g h = refl
  opening-retoken (ok a) k f g h = closing-retoken (k a) f g h

module _ (p : Platform) (http : Http) (browser : Ceremonies p http) (api : Endpoints) where
  -- The end of the two logins.
  same_end :
      (identifier : Text) (master_key : Bytes) (res other : LoginResult) (m : http.Net)
      (n : api.Net) (w : Entropy)
      → SameKeys res other
      → (opening
          (stretch_master_key p master_key)
          (λ stretched. unwrap_user_key p stretched res.protected_user_key)
          (λ user_key. session_of identifier res user_key (or_blank res.protected_private_key))
          m
          w).0
        ≡ retoken res (signed p api identifier master_key (signed_in other) n w).0
  unfolding signed session_of
  same_end identifier master_key res other m n w (user_keys, private_keys) =
      rw (user_keys, private_keys)
        (opening-retoken m n w res (stretch_master_key p master_key)
          (λ stretched. unwrap_user_key p stretched other.protected_user_key)
          (λ user_key. session_of identifier res user_key (or_blank other.protected_private_key))
          (λ user_key. session_of identifier other user_key (or_blank other.protected_private_key))
          (λ user_key. refl))

  -- Where the server accepts the passkey's assertion, signing in with the passkey gives what signing
  -- in with the password alone gives on a server on which the account has no passkey, as before it was
  -- enrolled, and the same key derivation and keys: the same session but for the tokens, which are
  -- those of the answer, or the same error where the user key does not open.
  pub login_with_passkey-login_account :
      (identifier password : Text) (kdf : KdfParams) (master_key : Bytes) (hash session_id : Text)
      (options : Option Json) (parameters begun assertion answer : Json) (res other : LoginResult)
      (net n1 n2 n3 n4 : http.Net) (before b1 b2 : api.Net) (w : Entropy)
      → Requests.prelogin p http identifier net ≡ (ok parameters, n1)
      → read_kdf (get (codes "kdf") parameters) ≡ ok kdf
      → derive_master_key p password identifier kdf ≡ ok master_key
      → derive_master_password_hash p master_key password ≡ ok hash
      → webauthn_login_begin p http identifier hash n1 ≡ (ok begun, n2)
      → text_member (codes "sessionId") begun ≡ ok session_id
      → public_key_of begun ≡ ok options
      → browser.authenticate options n2 ≡ (ok assertion, n3)
      → webauthn_login_finish p http identifier hash session_id assertion n3 ≡ (ok answer, n4)
      → read_login_result answer ≡ ok res
      → api.prelogin identifier before ≡ (ok kdf, b1)
      → api.login identifier hash none b1 ≡ (ok (signed_in other), b2)
      → SameKeys res other
      → (login_with_passkey p http browser identifier password net w).0
        ≡ retoken res (login_account p api identifier password none before w).0
  unfolding login_with_passkey login_account
  login_with_passkey-login_account identifier password kdf master_key hash session_id options
        parameters begun assertion answer res other net n1 n2 n3 n4 before b1 b2 w asked reads
        derives hashes begins names opens asserts finishes answers asked' accepts same =
      rw
        (
          asked, reads, asked', derives, hashes, begins, names, opens, asserts, finishes, answers,
          accepts,
        )
        (same_end identifier master_key res other n4 b2 w same)

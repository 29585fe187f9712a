-- ===== src/ApiClient/Accounts/SignIn.antt =====
-- Registering, and signing in from another device.
use passwd.Base.{◌≡◌, refl, ap, ◌∙◌, none, some, Text, Bytes}
use passwd.Base.Act.{Entropy}
use passwd.Base.Outcome.{ok, throw, returned}
use passwd.Crypto.Platform.{Platform, IsKey, Derived}
use passwd.Crypto.Primitives.{default_kdf}
use passwd.Crypto.Identifier.{normalize_identifier}
use passwd.Crypto.Account.Keys.{
  StretchedKey, derive_master_key, derive_master_password_hash, stretch_master_key, unwrap_user_key,
  unlock,
}
use passwd.Crypto.Account.Flows.{RegistrationBundle, Registration, build_registration}
use passwd.Crypto.Account.Flows.Unlocking.{unlock-build_registration}
use passwd.ApiClient.Items.{Session}
use passwd.ApiClient.Accounts.{
  Endpoints, LoginResult, signed_in, session_of, or_blank, register_account, login_account,
}

-- The answer to a login, with the keys of the registration.
abbrev pub keys_of : Text → Text → RegistrationBundle → LoginResult
keys_of access refresh b = record {
  access_token = access;
  refresh_token = refresh;
  protected_user_key = b.protected_user_key;
  protected_private_key = some b.protected_private_key;
}

-- What a server that stores registrations does of its state `holds b` after the registration `b`:
-- it gives the parameters and the keys back, and accepts the hash it was sent.
pub record Serves (api : Endpoints) (typed : Text) (net : api.Net)
    (holds : RegistrationBundle → api.Net) : Type 0 where
  pub access_token : Text
  pub refresh_token : Text
  pub registers : (b : RegistrationBundle) → api.register b net ≡ (ok tt, holds b)
  pub knows : (b : RegistrationBundle) → api.prelogin typed (holds b) ≡ (ok b.kdf, holds b)
  pub accepts :
      (b : RegistrationBundle)
      → api.login b.identifier b.master_password_hash none (holds b)
        ≡ (ok (signed_in (keys_of access_token refresh_token b)), holds b)
  pub accepts_typed :
      (b : RegistrationBundle)
      → api.login typed b.master_password_hash none (holds b)
        ≡ (ok (signed_in (keys_of access_token refresh_token b)), holds b)

-- The pieces of an unlock that succeeds.
record Unlocks (p : Platform) (identifier password : Text) (b : RegistrationBundle)
    (user_key : Bytes) : Type 0 where
  master_key : Bytes
  stretched : StretchedKey
  derives : derive_master_key p password identifier b.kdf ≡ ok master_key
  stretches : stretch_master_key p master_key ≡ ok stretched
  unwraps : unwrap_user_key p stretched b.protected_user_key ≡ ok user_key
  hashes : derive_master_password_hash p master_key password ≡ ok b.master_password_hash

unlock-Unlocks :
    (p : Platform) (identifier password : Text) (b : RegistrationBundle) (user_key : Bytes)
    → unlock p identifier password b.kdf b.protected_user_key
      ≡ ok (record { user_key = user_key; master_password_hash = b.master_password_hash })
    → Unlocks p identifier password b user_key
unfolding unlock
unlock-Unlocks p identifier password b user_key e =
    let (master_key, derives, e1) = returned (derive_master_key p password identifier b.kdf) _ e in
    let (stretched, stretches, e2) = returned (stretch_master_key p master_key) _ e1 in
    let (key, unwraps, e3) = returned (unwrap_user_key p stretched b.protected_user_key) _ e2 in
    let (hash, hashes, e4) = returned (derive_master_password_hash p master_key password) _ e3 in
    record {
      master_key = master_key;
      stretched = stretched;
      derives = derives;
      stretches = stretches;
      unwraps = unwraps ∙ ap (λ r. elim r [ ok u ↦ ok u.user_key | throw t ↦ throw t ]) e4;
      hashes =
          hashes ∙ ap (λ r. elim r [ ok u ↦ ok u.master_password_hash | throw t ↦ throw t ]) e4;
    }

module _ (p : Platform) (api : Endpoints) where
  registering :
      (identifier typed password : Text) (net : api.Net) (holds : RegistrationBundle → api.Net)
      (w : Entropy) (r : Registration) (serves : Serves api typed net holds)
      → (build_registration p identifier password default_kdf w).0 ≡ ok r
      → register_account p api identifier password net w ≡ (
        ok (
            session_of r.bundle.identifier
              (keys_of serves.access_token serves.refresh_token r.bundle)
              r.user_key
              r.bundle.protected_private_key),
        holds r.bundle,
        (build_registration p identifier password default_kdf w).1,
      )
  unfolding register_account
  registering identifier typed password net holds w r serves builds =
      rw (builds, serves.registers r.bundle, serves.accepts r.bundle) refl

  signing_in :
      (typed password : Text) (net : api.Net) (holds : RegistrationBundle → api.Net) (v : Entropy)
      (b : RegistrationBundle) (user_key : Bytes) (serves : Serves api typed net holds)
      → Unlocks p typed password b user_key
      → (login_account p api typed password none (holds b) v).0
        ≡ ok (
            session_of typed
              (keys_of serves.access_token serves.refresh_token b)
              user_key
              b.protected_private_key)
  unfolding login_account or_blank
  signing_in typed password net holds v b user_key serves u =
      rw (serves.knows b, u.derives, u.hashes, serves.accepts_typed b, u.stretches, u.unwraps) refl

  -- On a server that stores registrations, wherever the key derivation accepts the password,
  -- registering succeeds from every state of the random source. Signing in afterwards with the
  -- password, and a spelling of the identifier that normalizes alike, succeeds too, with the same
  -- 64-byte user key and the same wrapped private key.
  pub login_account-register_account :
      (identifier typed password : Text) (net : api.Net) (holds : RegistrationBundle → api.Net)
      (w v : Entropy)
      → normalize_identifier p typed ≡ normalize_identifier p identifier
      → Derived 32 (derive_master_key p password identifier default_kdf)
      → Serves api typed net holds
      → (s t : Session) × ((register_account p api identifier password net w).0 ≡ ok s)
        × ((login_account p api typed password none
              (register_account p api identifier password net w).1
              v).0
            ≡ ok t)
        × IsKey 64 s.user_key
        × (t.user_key ≡ s.user_key)
        × (t.protected_private_key ≡ s.protected_private_key)
  unfolding session_of
  login_account-register_account identifier typed password net holds w v same d serves =
      let (r, builds, is_key, kdf, unlocks) =
        unlock-build_registration p identifier typed password default_kdf w same d in
      let u : Unlocks p typed password r.bundle r.user_key =
        unlock-Unlocks p typed password r.bundle r.user_key (rw kdf unlocks) in
      (
        session_of r.bundle.identifier (keys_of serves.access_token serves.refresh_token r.bundle)
            r.user_key r.bundle.protected_private_key,
        session_of typed (keys_of serves.access_token serves.refresh_token r.bundle) r.user_key
            r.bundle.protected_private_key,
        rw (registering identifier typed password net holds w r serves builds) refl,
        rw (registering identifier typed password net holds w r serves builds)
            (signing_in typed password net holds v r.bundle r.user_key serves u),
        is_key,
        refl,
        refl,
      )

-- ===== src/Web/SignIn.antt =====
-- clients/apps/web/src/App.tsx: the form that registers, signs in and recovers. Its React state is
-- `Form`. The operations of the API client are the record `Auth`; the device is that of the
-- biometric plugin.
pub mod Guards
use passwd.Base.{
  Bool, true, false, not, ◌&&◌, ◌||◌, Option, none, some, List, [], ◌∷◌, ◌==◌, if◌then◌else◌, Text,
  codes,
}
use passwd.Base.Equality.{equal}
use passwd.Base.Outcome.{Result, Thrown, ok, throw, error, two_factor, message_of}
use passwd.Base.Strings.{trim, split, is_space}
use passwd.Crypto.Identifier.{normalize_identifier}
use passwd.Crypto.Password.{master_password_issue}
use passwd.Crypto.Platform.{Platform}
use passwd.ApiClient.Items.{Session}
use passwd.ApiClient.Portable.{is_blank}
use passwd.Web.Biometric.{Plugin, Credentials, enable_biometric, unlock_with_biometric}
use passwd.Web.Emails.{is_email, has_at}

pub data Mode : Type 0 where
  register login : Mode

pub record Form : Type 0 where
  pub mode : Mode
  pub identifier : Text
  pub generated : Bool
  pub password : Text
  pub confirm : Text
  pub confirm_id : Text
  pub recover : Bool
  pub recovery_code : Text
  pub methods : Option (List Text)
  pub totp : Text
  pub shown_error : Option Text
  pub bio_remember : Bool

-- What the form calls of the API client.
pub record Auth : Type 1 where
  pub Net : Type 0
  pub register_account : Text → Text → Net → Result Session × Net
  pub login_account : Text → Text → Option Text → Net → Result Session × Net
  pub login_with_passkey : Text → Text → Net → Result Session × Net
  pub recover_account : Text → Text → Text → Net → Result Session × Net

-- What a handler leaves: the form, the call of `onRecovery` and of `onAuthed` if there is one.
pub record Done : Type 0 where
  pub form : Form
  pub recovery : Option (Option Text)
  pub authed : Option Session

abbrev pub shows : Text → Form → Done
shows message f = record {
  form = record f { shown_error = some message };
  recovery = none;
  authed = none;
}

unfoldable pub includes : Text → List Text → Bool
unfolding equal
includes t [] = false
includes t (m ∷ ms) = equal t m || includes t ms

unfoldable pub needs : Text → Option (List Text) → Bool
unfolding includes
needs t none = false
needs t (some methods) = includes t methods

unfoldable pub switch_mode : Mode → Form → Form
switch_mode next f = record f {
  mode = next;
  shown_error = none;
  methods = none;
  totp = [];
  recover = false;
  recovery_code = [];
  confirm_id = [];
}

-- With an identifier from `newAccountId`.
unfoldable pub generate : Text → Form → Form
generate id f = record f { identifier = id; generated = true; confirm_id = [] }

confirm_issue : Option Text → Text → Text → Option Text
unfolding equal
confirm_issue (some weak) a b = some weak
confirm_issue none a b =
    if equal a b then none else some (codes "The master passwords don't match.")

-- The password's weakness, or that it was not confirmed.
unfoldable pub password_issue : Form → Option Text
unfolding confirm_issue master_password_issue
password_issue f = confirm_issue (master_password_issue f.password) f.password f.confirm

module _ (p : Platform) where
  -- Only a typed email is checked.
  email_issue : Form → Option Text
  unfolding has_at is_email normalize_identifier equal trim
  email_issue f =
      if not (not f.generated && has_at f.identifier)
      then none
      else if not (is_email (trim f.identifier))
      then some (
          codes
            "That doesn't look like a valid email. Check it, or roll the dice for a private passphrase.")
      else if equal (normalize_identifier p f.identifier) (normalize_identifier p f.confirm_id)
      then none
      else some (codes "The email addresses don't match.")

  abbrev first_issue : Option Text → Option Text → Option Text
  first_issue (some a) b = some a
  first_issue none b = b

  mode_issue : Mode → Form → Option Text
  unfolding email_issue password_issue
  mode_issue login f = none
  mode_issue register f = first_issue (email_issue f) (password_issue f)

  -- What keeps the form from being sent, if anything does.
  unfoldable pub form_issue : Form → Option Text
  unfolding mode_issue password_issue trim
  form_issue f =
      if f.recover
      then (if is_blank (trim f.identifier) || is_blank (trim f.recovery_code)
          then some (codes "Enter your identifier and recovery code.")
          else password_issue f)
      else if is_blank (trim f.identifier) || is_blank f.password
      then some (codes "Enter an account identifier and a master password.")
      else mode_issue f.mode f

  module _ (plugin : Plugin) (auth : Auth) where
    open plugin use {Device}
    open auth use {Net}

    -- Enrolment is tried, and its failure passed over.
    unfoldable pub after_auth : Form → Device → Device
    unfolding enable_biometric trim
    after_auth f d =
        if f.bio_remember && (not (is_blank (trim f.identifier)) && not (is_blank f.password))
        then (enable_biometric plugin (trim f.identifier) f.password d).1
        else d

    abbrev signed : Form → Option (Option Text) → Session → Done
    signed f recovery s = record { form = f; recovery = recovery; authed = some s }

    -- A second factor is asked for; any other error is shown.
    failed : Thrown → Form → Done
    unfolding message_of
    failed (two_factor methods) f = record {
      form = record f { methods = some methods };
      recovery = none;
      authed = none;
    }
    failed (error m) f = shows m f

    recovered : Result Session → Form → Net → Device → Done × Net × Device
    unfolding after_auth
    recovered (ok s) f net d = (signed f none s, net, after_auth f d)
    recovered (throw e) f net d =
        (shows (codes "Recovery failed. Double-check your identifier and recovery code.") f, net, d)

    completed : Option (Option Text) → Result Session → Form → Net → Device → Done × Net × Device
    unfolding after_auth failed
    completed recovery (ok s) f net d = (signed f recovery s, net, after_auth f d)
    completed recovery (throw e) f net d = (failed e f, net, d)

    -- The phrase to keep, of an identifier that was generated.
    abbrev phrase : Form → Option Text
    phrase f = if f.generated then some (p.lower (trim f.identifier)) else none

    send_as : Mode → Form → Net → Device → Done × Net × Device
    unfolding completed needs
    send_as register f net d =
        let (r, net') = auth.register_account f.identifier f.password net in
        completed (some (phrase f)) r f net' d
    send_as login f net d =
        let (r, net') =
          auth.login_account f.identifier f.password
            (if needs (codes "totp") f.methods then some f.totp else none) net in
        completed none r f net' d

    send : Form → Net → Device → Done × Net × Device
    unfolding send_as recovered
    send f net d =
        let (r, net') = auth.recover_account f.identifier f.recovery_code f.password net in
        if f.recover then recovered r f net' d else send_as f.mode f net d

    send_unless : Option Text → Form → Net → Device → Done × Net × Device
    unfolding send
    send_unless (some issue) f net d = (shows issue f, net, d)
    send_unless none f net d = send f net d

    unfoldable pub submit : Form → Net → Device → Done × Net × Device
    unfolding form_issue send_unless
    submit f net d = let g = record f { shown_error = none } in send_unless (form_issue g) g net d

    passkey_result : Result Session → Form → Net → Device → Done × Net × Device
    unfolding after_auth message_of
    passkey_result (ok s) f net d = (signed f none s, net, after_auth f d)
    passkey_result (throw e) f net d = (shows (message_of e) f, net, d)

    unfoldable pub use_passkey : Form → Net → Device → Done × Net × Device
    unfolding passkey_result trim
    use_passkey f net d =
        let g = record f { shown_error = none } in
        let (r, net') = auth.login_with_passkey g.identifier g.password net in
        if is_blank (trim g.identifier) || is_blank g.password
        then (shows (codes "Enter your identifier and master password first.") g, net, d)
        else passkey_result r g net' d

    bio_result : Credentials → Result Session → Form → Done
    unfolding message_of
    bio_result c (ok s) f = signed f none s
    bio_result c (throw (two_factor methods)) f = record {
      form = record f {
        identifier = c.username;
        password = c.password;
        mode = login;
        methods = some methods;
      };
      recovery = none;
      authed = none;
    }
    bio_result c (throw (error m)) f = shows m f

    bio_unlocked : Option Credentials → Form → Net → Device → Done × Net × Device
    unfolding bio_result
    bio_unlocked none f net d = (record { form = f; recovery = none; authed = none }, net, d)
    bio_unlocked (some c) f net d =
        let (r, net') = auth.login_account c.username c.password none net in
        (bio_result c r f, net', d)

    unfoldable pub unlock_bio : Form → Net → Device → Done × Net × Device
    unfolding bio_unlocked unlock_with_biometric
    unlock_bio f net d =
        let (c, d') = unlock_with_biometric plugin d in
        bio_unlocked c (record f { shown_error = none }) net d'

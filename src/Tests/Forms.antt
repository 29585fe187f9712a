-- ===== src/Tests/Forms.antt =====
-- The sign-in form at concrete inputs.
use passwd.Base.{◌≡◌, refl, true, false, none, some, [], inl, codes}
use passwd.Base.Equality.{equal}
use passwd.Base.Outcome.{ok, throw, error}
use passwd.Base.Strings.{trim, split}
use passwd.Crypto.Password.{master_password_issue}
use passwd.Web.Biometric.{Plugin}
use passwd.Web.SignIn.{Auth, Form, register, submit, form_issue, password_issue}
use passwd.Web.Emails.{is_email, has_space, has_inner_dot, has_at}
use passwd.Web.SignIn.Guards.{IsConfirmed, submit-IsConfirmed}
use passwd.Tests.Toy.{toy}
use passwd.Tests.Sync.{alice}

abbrev no_plugin : Plugin
no_plugin = record {
  Device = Unit;
  is_native = false;
  is_available = λ d. (ok false, d);
  get_credentials = λ d. (ok none, d);
  set_credentials = λ c d. (ok tt, d);
  verify_identity = λ d. (ok tt, d);
  delete_credentials = λ d. (ok tt, d);
}

abbrev alice_only : Auth
alice_only = record {
  Net = Unit;
  register_account = λ i pw net. (ok alice, net);
  login_account = λ i pw totp net. (ok alice, net);
  login_with_passkey = λ i pw net. (throw (error (codes "no passkey")), net);
  recover_account = λ i code pw net. (ok alice, net);
}

abbrev filled : Form
filled = record {
  mode = register;
  identifier = codes "a.b@c.de";
  generated = true;
  password = codes "a longer pass phrase";
  confirm = codes "a longer pass phrase";
  confirm_id = [];
  recover = false;
  recovery_code = [];
  methods = none;
  totp = [];
  shown_error = none;
  bio_remember = false;
}

email_forms :
    (is_email (codes "a.b@c.de") ≡ true)
    × (is_email (codes "a@b") ≡ false)
    × (is_email (codes "a@b.") ≡ false)
    × (is_email (codes "a b@c.de") ≡ false)
unfolding is_email has_space has_inner_dot split
email_forms = (refl, refl, refl, refl)

filled_signs_in : (submit toy no_plugin alice_only filled tt tt).0.authed ≡ some alice
unfolding submit form_issue password_issue master_password_issue equal trim has_at
filled_signs_in = refl

submit-IsConfirmed_example : IsConfirmed filled
submit-IsConfirmed_example =
    submit-IsConfirmed toy no_plugin alice_only filled alice tt tt (inl refl) filled_signs_in

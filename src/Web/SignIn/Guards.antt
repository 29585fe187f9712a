-- ===== src/Web/SignIn/Guards.antt =====
-- The conditions under which the form is sent.
use passwd.Base.{
  ◌≡◌, refl, ◌⊎◌, inl, inr, Bool, true, false, Option, none, some, Text, if◌then◌else◌, Bool-cases,
  sym, ◌∙◌, codes,
}
use passwd.Base.Equality.{equal, equal_iff}
use passwd.Crypto.Password.{master_password_issue}
use passwd.Crypto.Platform.{Platform}
use passwd.ApiClient.Items.{Session}
use passwd.Web.Biometric.{Plugin}
use passwd.Web.SignIn.{
  Mode, register, login, Form, Auth, password_issue, confirm_issue, email_issue, first_issue,
  mode_issue, form_issue, send_unless, submit,
}

-- The form sets a new master password.
abbrev pub SetsPassword : Form → Type 0
SetsPassword f = (f.mode ≡ register) ⊎ (f.recover ≡ true)

abbrev pub IsConfirmed : Form → Type 0
IsConfirmed f = (master_password_issue f.password ≡ none) × (f.password ≡ f.confirm)

confirm_issue-none :
    (o : Option Text) (a b : Text) → confirm_issue o a b ≡ none → (o ≡ none) × (equal a b ≡ true)
unfolding confirm_issue
confirm_issue-none (some weak) a b h = cc
confirm_issue-none none a b h = elim (Bool-cases (equal a b)) [
  | inl same ↦ (refl, same)
  | inr other ↦
      let no : some (codes "The master passwords don't match.") ≡ none = rw other at h in cc
]

password_issue-IsConfirmed : (f : Form) → password_issue f ≡ none → IsConfirmed f
unfolding password_issue
password_issue-IsConfirmed f h =
    let (strong, same) =
      confirm_issue-none (master_password_issue f.password) f.password f.confirm h in
    (strong, (equal_iff f.password f.confirm).0 same)

-- A test that shows nothing leaves the next.
next_issue :
    (b : Bool) (message : Text) (o : Option Text)
    → (if b then some message else o) ≡ none
    → o ≡ none
next_issue true message o h = cc
next_issue false message o h = h

left_issue : (b : Bool) (x y : Option Text) → b ≡ true → (if b then x else y) ≡ none → x ≡ none
left_issue true x y e h = h
left_issue false x y e h = cc

right_issue : (b : Bool) (x y : Option Text) → b ≡ false → (if b then x else y) ≡ none → y ≡ none
right_issue true x y e h = cc
right_issue false x y e h = h

module _ (p : Platform) where
  first_issue-none : (a b : Option Text) → first_issue p a b ≡ none → (a ≡ none) × (b ≡ none)
  first_issue-none (some a) b h = cc
  first_issue-none none b h = (refl, h)

  mode_issue-IsConfirmed :
      (m : Mode) (f : Form) → m ≡ register → mode_issue p m f ≡ none → password_issue f ≡ none
  unfolding mode_issue
  mode_issue-IsConfirmed login f e h = cc
  mode_issue-IsConfirmed register f e h =
      (first_issue-none (email_issue p f) (password_issue f) h).1

  form_issue-none : (f : Form) → SetsPassword f → form_issue p f ≡ none → password_issue f ≡ none
  unfolding form_issue
  form_issue-none f sets h = elim (Bool-cases f.recover) [
    | inl recovers ↦ next_issue _ _ (password_issue f) (left_issue f.recover _ _ recovers h)
    | inr other ↦ elim sets [
      | inl registers ↦
          mode_issue-IsConfirmed f.mode f registers
            (next_issue _ _ (mode_issue p f.mode f) (right_issue f.recover _ _ other h))
      | inr recovers ↦ let no : true ≡ false = sym recovers ∙ other in cc
    ]
  ]

  module _ (plugin : Plugin) (auth : Auth) where
    sent :
        (issue : Option Text) (f : Form) (s : Session) (net : auth.Net) (d : plugin.Device)
        → (send_unless p plugin auth issue f net d).0.authed ≡ some s
        → issue ≡ none
    unfolding send_unless
    sent (some issue) f s net d h = cc
    sent none f s net d h = refl

    -- Nobody is signed in from the form, to register or to recover an account, unless the master
    -- password is strong enough and was typed twice in the same way.
    pub submit-IsConfirmed :
        (f : Form) (s : Session) (net : auth.Net) (d : plugin.Device)
        → SetsPassword f
        → (submit p plugin auth f net d).0.authed ≡ some s
        → IsConfirmed f
    unfolding submit
    submit-IsConfirmed f s net d sets authed =
        password_issue-IsConfirmed (record f { shown_error = none })
          (form_issue-none (record f { shown_error = none }) sets
            (sent (form_issue p (record f { shown_error = none })) _ s net d authed))

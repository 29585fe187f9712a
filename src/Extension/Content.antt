-- ===== src/Extension/Content.antt =====
-- clients/apps/extension/entrypoints/content.ts: what the content script reads of a page's inputs, and
-- what it writes. A page is the list of its inputs in document order, with the attributes that the
-- selectors test; what the page's own listeners do after an event is left out.
pub mod Filled
use passwd.Base.{
  ℕ, ◌+◌, Bool, true, false, ◌&&◌, ◌||◌, Option, none, some, List, [], ◌∷◌, leb, ◌==◌, map,
  if◌then◌else◌, Text, codes,
}
use passwd.Base.Equality.{equal}
use passwd.Base.Strings.{includes_text}
use passwd.ApiClient.Portable.{is_blank}
use passwd.Extension.Protocol.{Request, capture_login}

-- An input: its attributes `type`, `autocomplete`, `name` and `id`, its value, and the form around it.
pub record Input : Type 0 where
  pub kind : Text
  pub autocomplete : Text
  pub name : Text
  pub id : Text
  pub value : Text
  pub form : Option ℕ

-- The comparison of a selector with the flag `i`, and of the attribute `type`.
abbrev lower_attribute : Text → Text
lower_attribute = map (λ c. if leb b'A' c && leb c b'Z' then c + 32 else c)

unfoldable pub has_kind : Text → Input → Bool
unfolding equal
has_kind kind i = equal (lower_attribute i.kind) kind

abbrev pub is_password : Input → Bool
is_password = has_kind (codes "password")

-- The selector of the field for the user's name.
unfoldable pub is_user : Input → Bool
unfolding has_kind equal includes_text
is_user i =
    has_kind (codes "email") i
    || equal i.autocomplete (codes "username")
    || includes_text (lower_attribute i.name) (codes "user")
    || includes_text (lower_attribute i.id) (codes "user")
    || includes_text (lower_attribute i.name) (codes "email")
    || has_kind (codes "text") i

-- The selector of a capture, which takes a telephone number too.
abbrev is_captured_user : Input → Bool
is_captured_user i = is_user i || has_kind (codes "tel") i

-- `querySelector`
unfoldable pub first_input : (Input → Bool) → List Input → Option Input
first_input test [] = none
first_input test (i ∷ page) = let rest = first_input test page in if test i then some i else rest

abbrev value_of : Option Input → Text
value_of none = []
value_of (some i) = i.value

unfoldable pub captured : Text → Option Input → Option Input → Option Request
captured url none user = none
captured url (some pw) user =
    if is_blank pw.value then none else some (capture_login url (value_of user) pw.value)

-- The message that a submit sends, over the inputs of the form, or of the page where the target is no
-- element.
unfoldable pub capture_from : Text → List Input → Option Request
unfolding captured first_input is_user has_kind
capture_from url scope =
    captured url (first_input is_password scope) (first_input is_captured_user scope)

-- `setValue` of the element that `querySelector` gives.
unfoldable pub set_first : (Input → Bool) → Text → List Input → List Input
set_first test v [] = []
set_first test v (i ∷ page) =
    let rest = set_first test v page in if test i then record i { value = v } ∷ page else i ∷ rest

-- Whether an input is below the form, or below the document where there is none.
unfoldable pub in_scope : Option ℕ → Input → Bool
in_scope none i = true
in_scope (some f) i = elim i.form [ none ↦ false | some g ↦ f == g ]

unfoldable pub fill_user : Text → Option ℕ → List Input → List Input
unfolding set_first in_scope is_user
fill_user username form page =
    if is_blank username then page else set_first (λ i. in_scope form i && is_user i) username page

unfoldable pub fill_found : Text → Text → Option Input → List Input → Bool × List Input
unfolding fill_user set_first has_kind
fill_found username password none page = (false, page)
fill_found username password (some pw) page =
    (true, set_first is_password password (fill_user username pw.form page))

unfoldable pub fill_login_form : Text → Text → List Input → Bool × List Input
unfolding fill_found first_input has_kind
fill_login_form username password page =
    fill_found username password (first_input is_password page) page

-- ===== src/ApiClient/Fields.antt =====
-- clients/packages/api-client/src/session.ts: the JSON of an item's fields, and `normalizeItemFields`,
-- which completes a decrypted or imported value. Members that `ItemFields` does not name are left
-- out.
pub mod RoundTrip
use passwd.Base.{Bool, true, false, ◌||◌, Option, none, some, ◌∷◌, List, [], map, Text, codes}
use passwd.Base.Equality.{equal}
use passwd.Base.Json.{
  Json, null, boolean, number, string, array, object, Items, end_items, item, Members, end_members,
  member, get, is_string, truthy, to_text,
}
use passwd.Crypto.Platform.{Platform}
use passwd.ApiClient.Items.{
  ItemType, login, note, card, identity, CustomField, CardDetails, IdentityDetails, ItemFields,
}

unfoldable pub type_name : ItemType → Text
type_name login = codes "login"
type_name note = codes "note"
type_name card = codes "card"
type_name identity = codes "identity"

abbrev pub hidden_member : Bool → Members
hidden_member true = member (codes "hidden") (boolean true) end_members
hidden_member false = end_members

unfoldable pub custom_fields_json : List CustomField → Items
custom_fields_json [] = end_items
custom_fields_json (f ∷ fs) =
    item
      (object (
        member (codes "label") (string f.label)
          (member (codes "value") (string f.value) (hidden_member f.hidden))))
      (custom_fields_json fs)

abbrev pub card_json : CardDetails → Json
card_json c = object (
    member (codes "cardholder") (string c.cardholder) (
      member (codes "number") (string c.number) (
        member (codes "expMonth") (string c.exp_month) (
          member (codes "expYear") (string c.exp_year)
            (member (codes "cvv") (string c.cvv) end_members)))))

abbrev pub identity_json : IdentityDetails → Json
identity_json i = object (
    member (codes "fullName") (string i.full_name) (
      member (codes "email") (string i.email) (
        member (codes "phone") (string i.phone) (
          member (codes "address") (string i.address)
            (member (codes "company") (string i.company) end_members)))))

-- The value of `ItemFields` that is written.
abbrev pub fields_json : ItemFields → Json
fields_json f = object (
    member (codes "type") (string (type_name f.type)) (
      member (codes "name") (string f.name) (
        member (codes "username") (string f.username) (
          member (codes "password") (string f.password) (
            member (codes "url") (string f.url) (
              member (codes "totp") (string f.totp) (
                member (codes "notes") (string f.notes) (
                  member (codes "card") (card_json f.card) (
                    member (codes "identity") (identity_json f.identity) (
                      member (codes "fields") (array (custom_fields_json f.fields)) (
                        member (codes "favorite") (boolean f.favorite)
                          (member (codes "folder") (string f.folder) end_members))))))))))))

-- `t === "note" || t === "card" || t === "identity" ? t : "login"`
unfoldable pub read_type : Option Json → ItemType
unfolding is_string
read_type v = elim (is_string (codes "note") v) [
  | true ↦ note
  | false ↦ elim (is_string (codes "card") v) [
    | true ↦ card
    | false ↦ elim (is_string (codes "identity") v) [ true ↦ identity | false ↦ login ]
  ]
]

-- `v == null ? "" : String(v)`
unfoldable pub text_or_blank : Option Json → Text
unfolding to_text
text_or_blank none = []
text_or_blank (some null) = []
text_or_blank (some v) = to_text v

-- A member spread over a blank. A value that is not a text is outside the types of the details.
unfoldable pub detail : Option Json → Option Text
detail none = some []
detail (some (string s)) = some s
detail (some v) = none

-- The value whose members are spread: a missing one has none.
unfoldable pub spread_member : Text → Option Json → Option Json
unfolding get
spread_member k none = none
spread_member k (some v) = get k v

infixl 5 ◌>>=◌
abbrev ◌>>=◌ : {A B : Type 0} → Option A → (A → Option B) → Option B
none >>= f = none
some a >>= f = f a

unfoldable pub read_card : Option Json → Option CardDetails
unfolding detail spread_member
read_card v = do
  cardholder ← detail (spread_member (codes "cardholder") v)
  digits ← detail (spread_member (codes "number") v)
  exp_month ← detail (spread_member (codes "expMonth") v)
  exp_year ← detail (spread_member (codes "expYear") v)
  cvv ← detail (spread_member (codes "cvv") v)
  some (record {
    cardholder = cardholder;
    number = digits;
    exp_month = exp_month;
    exp_year = exp_year;
    cvv = cvv;
  })

unfoldable pub read_identity : Option Json → Option IdentityDetails
unfolding detail spread_member
read_identity v = do
  full_name ← detail (spread_member (codes "fullName") v)
  email ← detail (spread_member (codes "email") v)
  phone ← detail (spread_member (codes "phone") v)
  address ← detail (spread_member (codes "address") v)
  company ← detail (spread_member (codes "company") v)
  some (record {
    full_name = full_name;
    email = email;
    phone = phone;
    address = address;
    company = company;
  })

read_custom_field : Json → CustomField
unfolding text_or_blank truthy get
read_custom_field v = record {
  label = text_or_blank (get (codes "label") v);
  value = text_or_blank (get (codes "value") v);
  hidden = truthy (get (codes "hidden") v);
}

-- Elements that are not objects are passed over.
unfoldable pub read_elements : Items → List CustomField
unfolding read_custom_field
read_elements end_items = []
read_elements (item (object ms) vs) = read_custom_field (object ms) ∷ read_elements vs
read_elements (item (array xs) vs) = read_custom_field (array xs) ∷ read_elements vs
read_elements (item v vs) = read_elements vs

unfoldable pub read_fields : Option Json → List CustomField
unfolding read_elements
read_fields (some (array vs)) = read_elements vs
read_fields v = []

-- `String(v)`, where a missing member is `undefined`.
unfoldable pub any_text : Option Json → Text
unfolding to_text
any_text none = codes "undefined"
any_text (some v) = to_text v

module _ (p : Platform) where
  unfoldable pub read_favorite : Option Json → Bool
  unfolding any_text equal
  read_favorite (some (boolean true)) = true
  read_favorite v =
      let s = p.lower (any_text v) in
      equal (codes "1") s || equal (codes "true") s || equal (codes "yes") s

  unfoldable pub normalize_item_fields : Json → Option ItemFields
  unfolding read_card read_identity read_type read_fields read_favorite text_or_blank get
  normalize_item_fields raw = do
    details ← read_card (get (codes "card") raw)
    person ← read_identity (get (codes "identity") raw)
    some (record {
      type = read_type (get (codes "type") raw);
      name = text_or_blank (get (codes "name") raw);
      username = text_or_blank (get (codes "username") raw);
      password = text_or_blank (get (codes "password") raw);
      url = text_or_blank (get (codes "url") raw);
      totp = text_or_blank (get (codes "totp") raw);
      notes = text_or_blank (get (codes "notes") raw);
      card = details;
      identity = person;
      fields = read_fields (get (codes "fields") raw);
      favorite = read_favorite (get (codes "favorite") raw);
      folder = text_or_blank (get (codes "folder") raw);
    })

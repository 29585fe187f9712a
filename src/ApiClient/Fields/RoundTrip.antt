-- ===== src/ApiClient/Fields/RoundTrip.antt =====
-- The JSON of an item's fields, and its completion.
use passwd.Base.{◌≡◌, refl, ap, Bool, true, false, some, ◌∷◌, ◌++◌, List, [], Text, codes}
use passwd.Base.Equality.{equal}
use passwd.Base.Json.{
  IsStable, IsStableItems, get, find_member, is_string, truthy, to_text, string, boolean, object,
  member,
}
use passwd.Crypto.Platform.{Platform}
use passwd.ApiClient.Items.{
  ItemType, login, note, card, identity, CustomField, CardDetails, IdentityDetails, ItemFields,
}
use passwd.ApiClient.Fields.{
  fields_json, custom_fields_json, hidden_member, card_json, identity_json, type_name, read_type,
  read_card, read_identity, read_elements, read_fields, read_favorite, normalize_item_fields,
  detail, spread_member, text_or_blank, any_text,
}

read_type-type_name : (t : ItemType) → read_type (some (string (type_name t))) ≡ t
unfolding read_type is_string equal type_name
read_type-type_name login = refl
read_type-type_name note = refl
read_type-type_name card = refl
read_type-type_name identity = refl

-- The same, with the members of the record apart.
abbrev field : Text → Text → Bool → CustomField
field label value hidden = record { label = label; value = value; hidden = hidden }

custom_field_kept :
    (label value : Text) (hidden : Bool)
    → read_elements (custom_fields_json (field label value hidden ∷ []))
      ≡ field label value hidden ∷ []
unfolding read_elements custom_fields_json truthy get find_member equal text_or_blank to_text
custom_field_kept label value true = refl
custom_field_kept label value false = refl

read_elements-custom_fields_json :
    (fs : List CustomField) → read_elements (custom_fields_json fs) ≡ fs
unfolding read_elements custom_fields_json truthy get find_member equal text_or_blank to_text
read_elements-custom_fields_json [] = refl
read_elements-custom_fields_json (f ∷ fs) =
    rw (read_elements-custom_fields_json fs)
      (ap (λ kept. kept ++ fs) (custom_field_kept f.label f.value f.hidden))

IsStable-field :
    (label value : Text) (hidden : Bool)
    → IsStable (
        object (
          member
            (codes "label")
            (string label)
            (member (codes "value") (string value) (hidden_member hidden))))
unfolding find_member equal
IsStable-field label value true = (refl, tt, (refl, tt, (refl, tt, tt)))
IsStable-field label value false = (refl, tt, (refl, tt, tt))

custom_fields_json-IsStable : (fs : List CustomField) → IsStableItems (custom_fields_json fs)
unfolding custom_fields_json find_member equal
custom_fields_json-IsStable [] = tt
custom_fields_json-IsStable (f ∷ fs) =
    (IsStable-field f.label f.value f.hidden, custom_fields_json-IsStable fs)

card_json-IsStable : (c : CardDetails) → IsStable (card_json c)
unfolding find_member equal
card_json-IsStable c = (refl, tt, (refl, tt, (refl, tt, (refl, tt, (refl, tt, tt)))))

identity_json-IsStable : (i : IdentityDetails) → IsStable (identity_json i)
unfolding find_member equal
identity_json-IsStable i = (refl, tt, (refl, tt, (refl, tt, (refl, tt, (refl, tt, tt)))))

pub fields_json-IsStable : (f : ItemFields) → IsStable (fields_json f)
unfolding find_member equal
fields_json-IsStable f = (
  refl,
  tt,
  (
    refl,
    tt,
    (
      refl,
      tt,
      (
        refl,
        tt,
        (
          refl,
          tt,
          (
            refl,
            tt,
            (
              refl,
              tt,
              (
                refl,
                card_json-IsStable f.card,
                (
                  refl,
                  identity_json-IsStable f.identity,
                  (refl, custom_fields_json-IsStable f.fields, (refl, tt, (refl, tt, tt))),
                ),
              ),
            ),
          ),
        ),
      ),
    ),
  ),
)

read_favorite-boolean :
    (p : Platform) (b : Bool)
    → p.lower (codes "false") ≡ codes "false"
    → read_favorite p (some (boolean b)) ≡ b
unfolding read_favorite to_text equal any_text
read_favorite-boolean p true h = refl
read_favorite-boolean p false h = rw h refl

-- On a platform that lower-cases "false" to itself, reading the JSON of an item's fields gives the
-- fields back.
pub normalize-fields_json :
    (p : Platform) (f : ItemFields)
    → p.lower (codes "false") ≡ codes "false"
    → normalize_item_fields p (fields_json f) ≡ some f
unfolding normalize_item_fields read_fields get find_member equal detail spread_member text_or_blank
    to_text read_card read_identity
normalize-fields_json p f h =
    rw
      (
        read_type-type_name f.type,
        read_elements-custom_fields_json f.fields,
        read_favorite-boolean p f.favorite h,
      )
      refl

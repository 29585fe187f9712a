-- ===== src/Desktop/Entries/Lookup.antt =====
-- Entries by their ids, before and after a save.
use passwd.Base.{
  ◌≡◌, ◌≢◌, refl, true, false, Option, none, some, Text, codes, if◌then◌else◌, Bool-cases, inl, inr,
  sym, ◌∙◌,
}
use passwd.Base.Equality.{equal, equal_refl, equal_iff}
use passwd.Base.Json.{
  Json, null, boolean, number, string, array, object, Items, end_items, item, get, find_member,
  is_string,
}
use passwd.Desktop.Files.{Entry, entry_json}
use passwd.Desktop.Entries.{has_id, some_id, replace_id, add_last, put_entry}

-- `items.find((i) => i.id === id)`
unfoldable pub find_entry : Text → Items → Option Json
unfolding has_id
find_entry id end_items = none
find_entry id (item v vs) = let later = find_entry id vs in if has_id id v then some v else later

has_id_entry : (e : Entry) → has_id e.id (entry_json e) ≡ true
unfolding has_id is_string get find_member equal
has_id_entry e = equal_refl e.id

is_string_unique :
    (a b : Text) (v : Option Json) → is_string a v ≡ true → is_string b v ≡ true → a ≡ b
unfolding is_string
is_string_unique a b none ha hb = cc
is_string_unique a b (some null) ha hb = cc
is_string_unique a b (some (boolean c)) ha hb = cc
is_string_unique a b (some (number t)) ha hb = cc
is_string_unique a b (some (string s)) ha hb = sym ((equal_iff s a).0 ha) ∙ (equal_iff s b).0 hb
is_string_unique a b (some (array vs)) ha hb = cc
is_string_unique a b (some (object ms)) ha hb = cc

has_id_other : (a b : Text) (v : Json) → a ≢ b → has_id a v ≡ true → has_id b v ≡ false
unfolding has_id
has_id_other a b v ne h = elim (Bool-cases (has_id b v)) [
  | inl both ↦ absurd (ne (is_string_unique a b (get (codes "id") v) h both))
  | inr other ↦ other
]

find_replaced :
    (id : Text) (e : Json) (vs : Items)
    → has_id id e ≡ true
    → some_id id vs ≡ true
    → find_entry id (replace_id id e vs) ≡ some e
unfolding find_entry replace_id some_id
find_replaced id e end_items h found = cc
find_replaced id e (item v vs) h found = elim (Bool-cases (has_id id v)) [
  | inl here ↦ rw here (rw h refl)
  | inr later ↦ rw later (rw later (find_replaced id e vs h (rw later at found)))
]

find_added :
    (id : Text) (e : Json) (vs : Items)
    → has_id id e ≡ true
    → some_id id vs ≡ false
    → find_entry id (add_last vs e) ≡ some e
unfolding find_entry add_last some_id
find_added id e end_items h none_found = rw h refl
find_added id e (item v vs) h none_found = elim (Bool-cases (has_id id v)) [
  | inl here ↦ let no : true ≡ false = rw here at none_found in cc
  | inr later ↦ rw later (find_added id e vs h (rw later at none_found))
]

find_replaced_other :
    (id other : Text) (e : Json) (vs : Items)
    → id ≢ other
    → has_id id e ≡ true
    → find_entry other (replace_id id e vs) ≡ find_entry other vs
unfolding find_entry replace_id
find_replaced_other id other e end_items ne h = refl
find_replaced_other id other e (item v vs) ne h = elim (Bool-cases (has_id id v)) [
  | inl here ↦ rw here (
      rw (has_id_other id other e ne h, has_id_other id other v ne here)
        (find_replaced_other id other e vs ne h))
  | inr later ↦ rw (later, find_replaced_other id other e vs ne h) refl
]

find_added_other :
    (id other : Text) (e : Json) (vs : Items)
    → id ≢ other
    → has_id id e ≡ true
    → find_entry other (add_last vs e) ≡ find_entry other vs
unfolding find_entry add_last
find_added_other id other e end_items ne h = rw (has_id_other id other e ne h) refl
find_added_other id other e (item v vs) ne h = rw (find_added_other id other e vs ne h) refl

-- After an entry is saved, it is what its id finds, whether it was there before or is new; under any
-- other id the same is found as before.
pub find_entry-put_entry :
    (e : Entry) (items : Items) (other : Text)
    → e.id ≢ other
    → (find_entry e.id (put_entry e items) ≡ some (entry_json e))
      × (find_entry other (put_entry e items) ≡ find_entry other items)
unfolding put_entry
find_entry-put_entry e items other ne = elim (Bool-cases (some_id e.id items)) [
  | inl there ↦ rw there (
    find_replaced e.id (entry_json e) items (has_id_entry e) there,
    find_replaced_other e.id other (entry_json e) items ne (has_id_entry e),
  )
  | inr new ↦ rw new (
    find_added e.id (entry_json e) items (has_id_entry e) new,
    find_added_other e.id other (entry_json e) items ne (has_id_entry e),
  )
]

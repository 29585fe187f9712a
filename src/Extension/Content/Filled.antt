-- ===== src/Extension/Content/Filled.antt =====
-- A page after a fill.
use passwd.Base.{
  ℕ, ◌&&◌, ◌≡◌, refl, ap, Bool, true, Option, none, some, List, [], ◌∷◌, Text, Bool-cases, inl, inr,
}
use passwd.ApiClient.Portable.{is_blank}
use passwd.Extension.Content.{
  Input, has_kind, is_password, first_input, set_first, in_scope, is_user, fill_user, fill_found,
  fill_login_form,
}

has_kind-value :
    (kind v : Text) (i : Input) → has_kind kind (record i { value = v }) ≡ has_kind kind i
unfolding has_kind
has_kind-value kind v i = refl

abbrev with_value : Text → Input → Input
with_value v i = record i { value = v }

-- The two inputs of an equation.
found_same : {i j : Input} → some i ≡ some j → i ≡ j
found_same {i = i} h = ap (λ o. elim o [ none ↦ i | some q ↦ q ]) h

-- Writing an input keeps the first password field, up to its value.
first_input-set_first :
    (test : Input → Bool) (v : Text) (page : List Input) (pw : Input)
    → first_input is_password page ≡ some pw
    → (w : Text) × (first_input is_password (set_first test v page)
        ≡ some (record pw { value = w }))
unfolding first_input set_first
first_input-set_first test v [] pw h = cc
first_input-set_first test v (i ∷ page) pw h = elim (Bool-cases (is_password i)) [
  | inl is ↦
      let same : i ≡ pw = found_same (rw is at h) in
      elim (Bool-cases (test i)) [
        | inl hit ↦ (v, rw (hit, has_kind-value _ v i, is) (ap (λ q. some (with_value v q)) same))
        | inr miss ↦ (pw.value, rw (miss, is) (ap some same))
      ]
  | inr other ↦
      let later : first_input is_password page ≡ some pw = rw other at h in
      elim (Bool-cases (test i)) [
        | inl hit ↦ (pw.value, rw (hit, has_kind-value _ v i, other) later)
        | inr miss ↦
            let (w, kept) = first_input-set_first test v page pw later in (w, rw (miss, other) kept)
      ]
]

-- Writing the first password field gives it the value.
first_input-set_password :
    (v : Text) (page : List Input) (pw : Input)
    → first_input is_password page ≡ some pw
    → first_input is_password (set_first is_password v page) ≡ some (record pw { value = v })
unfolding first_input set_first
first_input-set_password v [] pw h = cc
first_input-set_password v (i ∷ page) pw h = elim (Bool-cases (is_password i)) [
  | inl is ↦
      rw (is, has_kind-value _ v i, is) (ap (λ q. some (with_value v q)) (found_same (rw is at h)))
  | inr other ↦ rw (other, other) (first_input-set_password v page pw (rw other at h))
]

fill_user-kept :
    (username : Text) (form : Option ℕ) (page : List Input) (pw : Input)
    → first_input is_password page ≡ some pw
    → (w : Text) × (first_input is_password (fill_user username form page)
        ≡ some (record pw { value = w }))
unfolding fill_user
fill_user-kept username form page pw h = elim (Bool-cases (is_blank username)) [
  | inl blank ↦ (pw.value, rw blank h)
  | inr named ↦
      let (w, kept) =
        first_input-set_first (λ i. in_scope form i && is_user i) username page pw h in
      (w, rw named kept)
]

-- A page with a password field is filled, and its first password field is then the one that it was,
-- with the password as its value, also where that field was taken for the user's name.
pub fill_login_form-filled :
    (username password : Text) (page : List Input) (pw : Input)
    → first_input is_password page ≡ some pw
    → ((fill_login_form username password page).0 ≡ true)
      × (first_input is_password (fill_login_form username password page).1
          ≡ some (record pw { value = password }))
unfolding fill_login_form fill_found
fill_login_form-filled username password page pw h =
    let (w, kept) = fill_user-kept username pw.form page pw h in
    (
      rw h refl,
      rw h (
          first_input-set_password password (fill_user username pw.form page)
            (record pw { value = w }) kept),
    )

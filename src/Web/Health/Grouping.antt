-- ===== src/Web/Health/Grouping.antt =====
-- The groups of items by password.
use passwd.Base.{
  ◌≡◌, ◌≢◌, refl, sym, ap, ◌∙◌, Bool, true, false, List, [], ◌∷◌, ◌++◌, append-nil, append_assoc,
  arith, Text, All, Bool-cases, inl, inr, if◌then◌else◌,
}
use mathlib.Core.Path.{subst}
use passwd.Base.Equality.{equal-false, equal, equal_iff, equal_refl}
use passwd.ApiClient.Items.{VaultItem}
use passwd.Web.Health.{Groups, add_id, group_item, group_from, by_password}

-- The ids under a password.
unfoldable pub ids_of : Text → Groups → List Text
ids_of q [] = []
ids_of q ((k, ids) ∷ m) = let rest = ids_of q m in if equal k q then ids else rest

-- The ids of the items with a password.
unfoldable pub ids_with : Text → List VaultItem → List Text
ids_with q [] = []
ids_with q (i ∷ items) =
    let rest = ids_with q items in if equal i.content.password q then i.id ∷ rest else rest

-- No password has two groups.
abbrev pub IsKeyed : Groups → Type 0
IsKeyed [] = Unit
IsKeyed ((k, ids) ∷ m) = All (λ e. e.0 ≢ k) m × IsKeyed m

equal-swap : (a b : Text) → equal a b ≡ equal b a
unfolding equal
equal-swap [] [] = refl
equal-swap [] (y ∷ b) = refl
equal-swap (x ∷ a) [] = refl
equal-swap (x ∷ a) (y ∷ b) = ground (arith, equal-swap a b)

ids_of-add_id-same : (q id : Text) (m : Groups) → ids_of q (add_id q id m) ≡ ids_of q m ++ (id ∷ [])
unfolding ids_of add_id
ids_of-add_id-same q id [] = rw (equal_refl q) refl
ids_of-add_id-same q id ((k, ids) ∷ m) = elim (Bool-cases (equal q k)) [
  | inl e ↦ rw (e, (equal-swap k q ∙ e)) refl
  | inr e ↦ rw (e, (equal-swap k q ∙ e)) (ids_of-add_id-same q id m)
]

ids_of-add_id-other :
    (q pw id : Text) (m : Groups) → equal pw q ≡ false → ids_of q (add_id pw id m) ≡ ids_of q m
unfolding ids_of add_id
ids_of-add_id-other q pw id [] h = rw h refl
ids_of-add_id-other q pw id ((k, ids) ∷ m) h = elim (Bool-cases (equal pw k)) [
  | inl e ↦
      let other : equal k q ≡ false = subst (λ x. equal x q ≡ false) ((equal_iff pw k).0 e) h in
      rw (e, other) refl
  | inr e ↦ rw (e, ids_of-add_id-other q pw id m h) refl
]

nil-differs : (q : Text) → q ≢ [] → equal [] q ≡ false
unfolding equal
nil-differs [] ne = absurd (ne refl)
nil-differs (d ∷ q) ne = refl

append-if :
    (ids : List Text) (id : Text) (b : Bool) (rest : List Text)
    → (ids ++ (if b then id ∷ [] else [])) ++ rest ≡ ids ++ (if b then id ∷ rest else rest)
append-if ids id true rest = append_assoc ids (id ∷ []) rest
append-if ids id false rest = ap (λ x. x ++ rest) (append-nil ids)

ids_of-group_item :
    (q pw id : Text) (m : Groups)
    → q ≢ []
    → ids_of q (group_item pw id m) ≡ ids_of q m ++ (if equal pw q then id ∷ [] else [])
unfolding group_item
ids_of-group_item q [] id m ne = rw (nil-differs q ne) (sym (append-nil (ids_of q m)))
ids_of-group_item q (c ∷ pw) id m ne = elim (Bool-cases (equal (c ∷ pw) q)) [
  | inl e ↦ rw e (
      subst (λ x. ids_of x (add_id (c ∷ pw) id m) ≡ ids_of x m ++ (id ∷ []))
        ((equal_iff (c ∷ pw) q).0 e) (ids_of-add_id-same (c ∷ pw) id m))
  | inr e ↦ rw (e, append-nil (ids_of q m)) (ids_of-add_id-other q (c ∷ pw) id m e)
]

ids_of-group_from :
    (q : Text) (items : List VaultItem) (m : Groups)
    → q ≢ []
    → ids_of q (group_from m items) ≡ ids_of q m ++ ids_with q items
unfolding group_from ids_with
ids_of-group_from q [] m ne = sym (append-nil (ids_of q m))
ids_of-group_from q (i ∷ items) m ne =
    ids_of-group_from q items (group_item i.content.password i.id m) ne
    ∙ (ap (λ x. x ++ ids_with q items) (ids_of-group_item q i.content.password i.id m ne)
        ∙ append-if (ids_of q m) i.id (equal i.content.password q) (ids_with q items))

All-add_id :
    (k pw id : Text) (m : Groups)
    → equal pw k ≡ false
    → All (λ e. e.0 ≢ k) m
    → All (λ e. e.0 ≢ k) (add_id pw id m)
unfolding add_id
All-add_id k pw id [] h hs = (equal-false pw k h, tt)
All-add_id k pw id ((q, ids) ∷ m) h (hq, hs) = elim (Bool-cases (equal pw q)) [
  | inl e ↦ rw e (hq, hs)
  | inr e ↦ rw e (hq, All-add_id k pw id m h hs)
]

add_id-IsKeyed : (pw id : Text) (m : Groups) → IsKeyed m → IsKeyed (add_id pw id m)
unfolding add_id
add_id-IsKeyed pw id [] h = (tt, tt)
add_id-IsKeyed pw id ((q, ids) ∷ m) (hq, h) = elim (Bool-cases (equal pw q)) [
  | inl e ↦ rw e (hq, h)
  | inr e ↦ rw e (All-add_id q pw id m e hq, add_id-IsKeyed pw id m h)
]

group_item-IsKeyed : (pw id : Text) (m : Groups) → IsKeyed m → IsKeyed (group_item pw id m)
unfolding group_item
group_item-IsKeyed [] id m h = h
group_item-IsKeyed (c ∷ pw) id m h = add_id-IsKeyed (c ∷ pw) id m h

group_from-IsKeyed :
    (items : List VaultItem) (m : Groups) → IsKeyed m → IsKeyed (group_from m items)
unfolding group_from
group_from-IsKeyed [] m h = h
group_from-IsKeyed (i ∷ items) m h =
    group_from-IsKeyed items (group_item i.content.password i.id m)
      (group_item-IsKeyed i.content.password i.id m h)

-- No password has two groups, and the group of a password that is not empty holds the ids of the
-- items with that password, in their order.
pub by_password-ids_with :
    (items : List VaultItem) (q : Text)
    → q ≢ []
    → IsKeyed (by_password items) × (ids_of q (by_password items) ≡ ids_with q items)
unfolding by_password ids_of
by_password-ids_with items q ne = (group_from-IsKeyed items [] tt, ids_of-group_from q items [] ne)

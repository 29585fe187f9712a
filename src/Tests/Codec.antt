-- ===== src/Tests/Codec.antt =====
-- A JSON format for tests: a value is a program for a stack, in postfix order, so that reading it
-- needs no look-ahead. It meets the laws that the clients rely on.
use passwd.Base.{
  ℕ, ◌+◌, ◌-◌, ◌≡◌, refl, sym, ap, ◌∙◌, true, false, Option, none, some, List, [], ◌∷◌, ◌++◌,
  append_assoc, append-nil, ◌==◌, if◌then◌else◌, Text, arith,
}
use passwd.Base.Json.{
  Json, null, boolean, number, string, array, object, Items, end_items, item, Members, end_members,
  member,
}

pub data Op : Type 0 where
  push_null push_true push_false push_text to_number to_string push_items add_item : Op
  to_array push_members add_member to_object : Op
  append : ℕ → Op

op : ℕ → Op
op c =
    if c == 0
    then push_null
    else if c == 1
    then push_true
    else if c == 2
    then push_false
    else if c == 3
    then push_text
    else if c == 4
    then to_number
    else if c == 5
    then to_string
    else if c == 6
    then push_items
    else if c == 7
    then add_item
    else if c == 8
    then to_array
    else if c == 9
    then push_members
    else if c == 10
    then add_member
    else if c == 11
    then to_object
    else append (c - 12)

pub data Slot : Type 0 where
  text : Text → Slot
  value : Json → Slot
  items : Items → Slot
  members : Members → Slot

step : Op → List Slot → Option (List Slot)
step push_null st = some (value null ∷ st)
step push_true st = some (value (boolean true) ∷ st)
step push_false st = some (value (boolean false) ∷ st)
step push_text st = some (text [] ∷ st)
step push_items st = some (items end_items ∷ st)
step push_members st = some (members end_members ∷ st)
step to_number (text t ∷ st) = some (value (number t) ∷ st)
step to_string (text t ∷ st) = some (value (string t) ∷ st)
step (append c) (text t ∷ st) = some (text (t ++ c ∷ []) ∷ st)
step add_item (value v ∷ items xs ∷ st) = some (items (item v xs) ∷ st)
step to_array (items xs ∷ st) = some (value (array xs) ∷ st)
step add_member (value v ∷ text k ∷ members ms ∷ st) = some (members (member k v ms) ∷ st)
step to_object (members ms ∷ st) = some (value (object ms) ∷ st)
step _ _ = none

run : List Slot → Text → Option (List Slot)
run st [] = some st
run st (c ∷ s) = elim (step (op c) st) [ none ↦ none | some st' ↦ run st' s ]

text_code : Text → Text
text_code [] = []
text_code (c ∷ s) = (c + 12) ∷ text_code s

mutual
  value_code : Json → Text
  value_code null = 0 ∷ []
  value_code (boolean true) = 1 ∷ []
  value_code (boolean false) = 2 ∷ []
  value_code (number t) = 3 ∷ (text_code t ++ 4 ∷ [])
  value_code (string t) = 3 ∷ (text_code t ++ 5 ∷ [])
  value_code (array xs) = items_code xs ++ 8 ∷ []
  value_code (object ms) = members_code ms ++ 11 ∷ []

  items_code : Items → Text
  items_code end_items = 6 ∷ []
  items_code (item v xs) = items_code xs ++ (value_code v ++ 7 ∷ [])

  members_code : Members → Text
  members_code end_members = 9 ∷ []
  members_code (member k v ms) = members_code ms ++ (3 ∷ (text_code k ++ (value_code v ++ 10 ∷ [])))

result : Option (List Slot) → Option Json
result (some (value v ∷ [])) = some v
result _ = none

unfoldable pub write : Json → Text
unfolding value_code text_code
write = value_code

unfoldable pub read : Text → Option Json
unfolding result run step op
read s = result (run [] s)

run-text_code :
    (s t : Text) (st : List Slot) (rest : Text)
    → run (text t ∷ st) (text_code s ++ rest) ≡ run (text (t ++ s) ∷ st) rest
unfolding run text_code step op
run-text_code [] t st rest = rw append-nil
run-text_code (c ∷ s) t st rest =
    ground (arith, run-text_code s (t ++ c ∷ []) st rest, append_assoc t (c ∷ []) s)

mutual
  unfolding run value_code step op

  run-value_code :
      (v : Json) (st : List Slot) (rest : Text)
      → run st (value_code v ++ rest) ≡ run (value v ∷ st) rest
  run-value_code null st rest = refl
  run-value_code (boolean true) st rest = refl
  run-value_code (boolean false) st rest = refl
  run-value_code (number t) st rest = rw append_assoc (run-text_code t [] st (4 ∷ rest))
  run-value_code (string t) st rest = rw append_assoc (run-text_code t [] st (5 ∷ rest))
  run-value_code (array xs) st rest = rw append_assoc (run-items_code xs st (8 ∷ rest))
  run-value_code (object ms) st rest = rw append_assoc (run-members_code ms st (11 ∷ rest))

  run-items_code :
      (xs : Items) (st : List Slot) (rest : Text)
      → run st (items_code xs ++ rest) ≡ run (items xs ∷ st) rest
  run-items_code end_items st rest = refl
  run-items_code (item v xs) st rest =
      simp append_assoc (run-items_code xs st _ ∙ run-value_code v (items xs ∷ st) (7 ∷ rest))

  run-members_code :
      (ms : Members) (st : List Slot) (rest : Text)
      → run st (members_code ms ++ rest) ≡ run (members ms ∷ st) rest
  run-members_code end_members st rest = refl
  run-members_code (member k v ms) st rest = simp append_assoc (
      run-members_code ms st _
      ∙ run-text_code k [] (members ms ∷ st) _
      ∙ run-value_code v (text k ∷ members ms ∷ st) (10 ∷ rest))

pub read-write : (v : Json) → read (write v) ≡ some v
unfolding read write
read-write v = ap result (ap (run []) (sym (append-nil (value_code v))) ∙ run-value_code v [] [])

pub read_number : (s : Text) → read (b'1' ∷ s) ≡ none
unfolding read
read_number s = refl

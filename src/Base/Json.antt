-- ===== src/Base/Json.antt =====
-- Values as `JSON.parse` makes them. A number stands by the text that `String` gives of it, and an
-- object is the list of its members, whose keys differ.
use Prim.Native.Nat.{ℕ}
use mathlib.Core.Path.{◌≡◌}
use mathlib.Core.Bool.{Bool, true, false, not, ◌||◌}
use mathlib.Core.List.{[], ◌∷◌, ◌++◌}
use mathlib.Core.Option.{Option, none, some}
use passwd.Base.Tests.{if◌then◌else◌}
use passwd.Base.Lists.{Text, codes}
use passwd.Base.Equality.{equal}
use passwd.Base.Decimal.{decimal}

mutual
  pub data Json : Type 0 where
    null : Json
    boolean : Bool → Json
    number : Text → Json
    string : Text → Json
    array : Items → Json
    object : Members → Json

  pub data Items : Type 0 where
    end_items : Items
    item : Json → Items → Items

  pub data Members : Type 0 where
    end_members : Members
    member : Text → Json → Members → Members

unfoldable pub find_member : Text → Members → Option Json
find_member k end_members = none
find_member k (member j v ms) = let later = find_member k ms in if equal j k then some v else later

-- `v.k`, on a value that is not null: a value with no such member gives `undefined`.
unfoldable pub get : Text → Json → Option Json
unfolding find_member equal
get k (object ms) = find_member k ms
get k _ = none

-- `v?.k === text`
unfoldable pub is_string : Text → Option Json → Bool
unfolding equal
is_string t (some (string s)) = equal s t
is_string t _ = false

-- `v.k === n`, for a natural number
unfoldable pub is_number : ℕ → Option Json → Bool
unfolding equal decimal
is_number n (some (number s)) = equal s (decimal n)
is_number n _ = false

-- What `if (v)` and `!!v` test; `undefined` is `none`.
unfoldable pub truthy : Option Json → Bool
unfolding equal
truthy none = false
truthy (some null) = false
truthy (some (boolean b)) = b
truthy (some (number t)) = not (equal t (codes "0") || equal t (codes "NaN"))
truthy (some (string [])) = false
truthy (some _) = true

-- `String(v)`: the elements of an array are joined by commas, a null one as nothing.
unfoldable mutual
  pub to_text : Json → Text
  to_text null = codes "null"
  to_text (boolean true) = codes "true"
  to_text (boolean false) = codes "false"
  to_text (number t) = t
  to_text (string s) = s
  to_text (array xs) = items_text xs
  to_text (object ms) = codes "[object Object]"

  pub items_text : Items → Text
  items_text end_items = []
  items_text (item v xs) = element_text v ++ more_text xs

  pub element_text : Json → Text
  element_text null = []
  element_text (boolean true) = codes "true"
  element_text (boolean false) = codes "false"
  element_text (number t) = t
  element_text (string s) = s
  element_text (array xs) = items_text xs
  element_text (object ms) = codes "[object Object]"

  pub more_text : Items → Text
  more_text end_items = []
  more_text (item v xs) = b',' ∷ (element_text v ++ more_text xs)

-- The texts that `String(n)` gives of natural numbers: `JSON.stringify` and `JSON.parse` keep them.
abbrev pub IsNatural : Text → Type 0
IsNatural t = (n : ℕ) × (t ≡ decimal n)

abbrev pub Missing : Text → Members → Type 0
Missing k ms = find_member k ms ≡ none

-- A value that survives `JSON.stringify` and `JSON.parse`: its numbers are naturals, and the keys
-- of an object differ.
abbrev mutual
  pub IsStable : Json → Type 0
  IsStable null = Unit
  IsStable (boolean b) = Unit
  IsStable (number t) = IsNatural t
  IsStable (string s) = Unit
  IsStable (array xs) = IsStableItems xs
  IsStable (object ms) = IsStableMembers ms

  pub IsStableItems : Items → Type 0
  IsStableItems end_items = Unit
  IsStableItems (item v xs) = IsStable v × IsStableItems xs

  pub IsStableMembers : Members → Type 0
  IsStableMembers end_members = Unit
  IsStableMembers (member k v ms) = Missing k ms × IsStable v × IsStableMembers ms

-- ===== src/Web/Health.antt =====
-- clients/apps/web/src/health.ts: weak, reused and breached passwords. A `Map` is its entries in the
-- order of insertion. The request for one password is `breach_count` of Health/Ranges, which the loop
-- takes as an argument.
pub mod Grouping
pub mod Ranges
pub mod Privacy
use passwd.Base.{
  ℕ, ◌+◌, Bool, ◌||◌, Option, none, some, List, [], ◌∷◌, ◌++◌, leb, ltb, if◌then◌else◌, Text, codes,
  length,
}
use passwd.Base.Equality.{equal}
use passwd.Base.Outcome.{Result, ok, throw}
use passwd.Crypto.Password.{class_count}
use passwd.ApiClient.Items.{VaultItem}

weakness : Text → Option Text
weakness pw =
    if ltb (length pw) 10
    then some (codes "Short (under 10 characters)")
    else if ltb (length pw) 14
    then (if ltb (class_count pw) 3 then some (codes "Low complexity") else none)
    else none

-- An empty password is not weak.
unfoldable pub password_weakness : Text → Option Text
unfolding weakness
password_weakness [] = none
password_weakness (c ∷ pw) = weakness (c ∷ pw)

-- Item ids under their password.
abbrev pub Groups : Type 0
Groups = List (Text × List Text)

-- `ids = m.get(pw) ?? []; ids.push(id); m.set(pw, ids)`
unfoldable pub add_id : Text → Text → Groups → Groups
add_id pw id [] = (pw, id ∷ []) ∷ []
add_id pw id ((q, ids) ∷ m) =
    let rest = add_id pw id m in if equal pw q then (q, ids ++ (id ∷ [])) ∷ m else (q, ids) ∷ rest

-- Empty passwords are ignored.
unfoldable pub group_item : Text → Text → Groups → Groups
unfolding add_id
group_item [] id m = m
group_item (c ∷ pw) id m = add_id (c ∷ pw) id m

unfoldable pub group_from : Groups → List VaultItem → Groups
unfolding group_item
group_from m [] = m
group_from m (i ∷ items) = group_from (group_item i.content.password i.id m) items

unfoldable pub by_password : List VaultItem → Groups
unfolding group_from
by_password items = group_from [] items

-- The ids of the groups with more than one. The source collects them in a set.
unfoldable pub reused_ids : Groups → List Text
reused_ids [] = []
reused_ids ((pw, ids) ∷ m) =
    let rest = reused_ids m in if ltb 1 (length ids) then ids ++ rest else rest

unfoldable pub reused_item_ids : List VaultItem → List Text
unfolding by_password reused_ids
reused_item_ids items = reused_ids (by_password items)

-- The marks that one group sets, in order, after its request: a failed one leaves its items unmarked.
unfoldable pub marks : List Text → Result ℕ → List (Text × ℕ)
marks ids (throw e) = []
marks [] (ok n) = []
marks (id ∷ ids) (ok n) = if ltb 0 n then (id, n) ∷ marks ids (ok n) else []

module _ {Net : Type 0} (breach_count : Text → Net → Result ℕ × Net) where
  -- One request for each group, in order.
  unfoldable pub breached_ids : Groups → Net → List (Text × ℕ) × Net
  unfolding marks
  breached_ids [] net = ([], net)
  breached_ids ((pw, ids) ∷ m) net =
      let (r, net') = breach_count pw net in
      let (rest, net'') = breached_ids m net' in (marks ids r ++ rest, net'')

  unfoldable pub breached_item_ids : List VaultItem → Net → List (Text × ℕ) × Net
  unfolding by_password breached_ids
  breached_item_ids items net = breached_ids (by_password items) net

-- ===== src/Tests/Hosts.antt =====
-- Hosts and entries at concrete inputs.
use passwd.Base.{ℕ, ◌≡◌, ◌<◌, ap, Option, some, get_or, drop, Text, codes, arith}
use passwd.Base.Json.{Items, end_items, item}
use passwd.Desktop.Files.{Entry, entry_json}
use passwd.Desktop.Entries.{blank_item, put_entry}
use passwd.Desktop.Entries.Lookup.{find_entry, find_entry-put_entry}

-- The host of an address that begins with `https://` and has no path.
unfoldable host_of : Text → Option Text
host_of s = some (drop 8 s)

abbrev first : Entry
first = record blank_item { id = codes "1"; name = codes "bank" }

abbrev second : Entry
second = record blank_item { id = codes "2"; name = codes "shop" }

abbrev stored : Items
stored = item (entry_json first) (item (entry_json second) end_items)

first_differs : (c d : ℕ) → c ≡ d → d < c → ⊥
first_differs c d e less = omega (arith, e, less)

find_entry-put_entry_example :
    (find_entry (codes "2") (put_entry (record second { password = codes "pw" }) stored)
      ≡ some (entry_json (record second { password = codes "pw" })))
    × (find_entry (codes "1") (put_entry (record second { password = codes "pw" }) stored)
        ≡ find_entry (codes "1") stored)
find_entry-put_entry_example =
    find_entry-put_entry (record second { password = codes "pw" }) stored (codes "1")
      (λ e. first_differs b'2' b'1' (ap (λ s. get_or s 0 0) e) (omega arith))

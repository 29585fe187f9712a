-- ===== src/Web/Listing/Favorites.antt =====
-- The list of items and the favourite marks.
use passwd.Base.{◌≡◌, not, List, ◌++◌, Text}
use passwd.Base.Sorting.{filter, sort-by_flag}
use passwd.Crypto.Platform.{Platform}
use passwd.ApiClient.Items.{VaultItem}
use passwd.Web.Listing.{is_listed, filtered}

-- The list shows exactly the items that the filter and the search select: the favourites first, and
-- each of the two parts in the order of the vault.
pub filtered-favorites :
    (p : Platform) (f query : Text) (items : List VaultItem)
    → filtered p f query items
      ≡ filter (λ i. i.content.favorite) (filter (is_listed p f query) items)
        ++ filter (λ i. not i.content.favorite) (filter (is_listed p f query) items)
unfolding filtered
filtered-favorites p f query items =
    sort-by_flag (λ i. i.content.favorite) (filter (is_listed p f query) items)
